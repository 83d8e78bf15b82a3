-- ===== src/ToolMapper.antt =====
-- crates/lunaroute-session/src/tool_mapper.rs: which tool a result belongs to. The time of a call is
-- an argument, in nanoseconds; the calls of one mapper come one after the other.
pub mod Memory
mod Examples
use lunaroute.Prelude.{
  ℕ, ◌+◌, ◌-◌, ◌%◌, Bool, String, Option, none, some, List, [], ◌∷◌, ltb, leb, if◌then◌else◌,
  and_then,
}
use lunaroute.Prelude.Maps.{lookup, insert}
use lunaroute.Prelude.Words.{u64_size}

pub record ToolCallMapper : Type 0 where
  pub mappings : List (String × (String × ℕ))
  pub ttl : ℕ
  pub ops_since_cleanup : ℕ
  pub cleanup_threshold : ℕ

-- `ToolCallMapper::with_ttl`.
unfoldable pub with_ttl : ℕ → ToolCallMapper
with_ttl ttl = record { mappings = []; ttl = ttl; ops_since_cleanup = 0; cleanup_threshold = 100 }

-- `ToolCallMapper::new`: an hour.
unfoldable pub new : ToolCallMapper
unfolding with_ttl
new = with_ttl 3_600_000_000_000

-- `now.duration_since(timestamp) < ttl`, where a duration into the past is zero.
abbrev pub is_fresh : ℕ → ℕ → ℕ → Bool
is_fresh ttl now timestamp = ltb (now - timestamp) ttl

-- `mappings.retain(…)`.
unfoldable pub retain_fresh : ℕ → ℕ → List (String × (String × ℕ)) → List (String × (String × ℕ))
retain_fresh ttl now [] = []
retain_fresh ttl now ((id, (name, timestamp)) ∷ m) =
    let rest = retain_fresh ttl now m in
    if is_fresh ttl now timestamp then (id, (name, timestamp)) ∷ rest else rest

unfoldable pub cleanup_expired : ℕ → ToolCallMapper → ToolCallMapper
unfolding retain_fresh
cleanup_expired now mapper = record mapper {
  mappings = retain_fresh mapper.ttl now mapper.mappings;
}

-- `fetch_add` wraps around.
unfoldable pub maybe_cleanup : ℕ → ToolCallMapper → ToolCallMapper
unfolding cleanup_expired
maybe_cleanup now mapper =
    if leb mapper.cleanup_threshold mapper.ops_since_cleanup
    then cleanup_expired now (record mapper { ops_since_cleanup = 0 })
    else record mapper { ops_since_cleanup = (mapper.ops_since_cleanup + 1) % u64_size }

unfoldable pub record_call : String → String → ℕ → ToolCallMapper → ToolCallMapper
unfolding maybe_cleanup
record_call tool_call_id tool_name now mapper =
    maybe_cleanup now
      (record mapper { mappings = insert tool_call_id (tool_name, now) mapper.mappings })

-- The name of an entry that has not expired.
unfoldable pub fresh_name : ℕ → ℕ → Option (String × ℕ) → Option String
fresh_name ttl now none = none
fresh_name ttl now (some (name, timestamp)) = if is_fresh ttl now timestamp then some name else none

-- `lookup`.
unfoldable pub lookup_name : String → ℕ → ToolCallMapper → ToolCallMapper × Option String
unfolding maybe_cleanup fresh_name
lookup_name tool_call_id now mapper =
    let mapper' = maybe_cleanup now mapper in
    (mapper', fresh_name mapper'.ttl now (lookup tool_call_id mapper'.mappings))
