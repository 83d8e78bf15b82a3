-- ===== src/Server/SessionStats.antt =====
-- crates/lunaroute-server/src/session_stats.rs: the statistics of sessions. The lock makes each call one
-- step; sums of u64 that overflow panic in a debug build and wrap in a release build. The first key of a
-- HashMap, which is any of its keys, is a parameter.
pub mod Bounds
mod Examples
use lunaroute.Prelude.{
  ℕ, ◌+◌, ◌/◌, ◌%◌, Bool, true, false, ◌&&◌, not, String, Option, none, some, List, [], ◌∷◌, length,
  ltb, leb, ◌==◌, if◌then◌else◌, value_or,
}
use lunaroute.Prelude.Maps.{lookup, insert, remove}
use lunaroute.Prelude.Words.{u32_size, u64_size}

pub record SessionStats : Type 0 where
  pub request_count : ℕ
  pub input_tokens : ℕ
  pub output_tokens : ℕ
  pub thinking_tokens : ℕ
  pub thinking_requests : ℕ
  pub tool_calls : List (String × ℕ)
  pub total_tool_calls : ℕ
  pub pre_proxy_time : ℕ
  pub post_proxy_time : ℕ

abbrev pub no_stats : SessionStats
no_stats = record {
  request_count = 0;
  input_tokens = 0;
  output_tokens = 0;
  thinking_tokens = 0;
  thinking_requests = 0;
  tool_calls = [];
  total_tool_calls = 0;
  pre_proxy_time = 0;
  post_proxy_time = 0;
}

-- `duration / 0` panics, which the cast to u32 can reach.
unfoldable pub avg_processing_time : SessionStats → Option ℕ
avg_processing_time s =
    if s.request_count == 0
    then some 0
    else (if s.request_count % u32_size == 0
        then none
        else some ((s.pre_proxy_time + s.post_proxy_time) / (s.request_count % u32_size)))

unfoldable pub total_processing_time : SessionStats → ℕ
total_processing_time s = s.pre_proxy_time + s.post_proxy_time

pub record SessionStatsTracker : Type 0 where
  pub max_sessions : ℕ
  pub stats : List (String × SessionStats)

unfoldable pub new : ℕ → SessionStatsTracker
new max_sessions = record { max_sessions = max_sessions; stats = [] }

unfoldable pub add : ℕ → ℕ → ℕ
add a b = (a + b) % u64_size

unfoldable pub is_tracked : Option SessionStats → Bool
is_tracked none = false
is_tracked (some s) = true

-- The arguments of a call besides the session.
pub record Request : Type 0 where
  pub input_tokens : ℕ
  pub output_tokens : ℕ
  pub thinking_tokens : ℕ
  pub tool_calls : List (String × ℕ)
  pub pre_proxy_time : ℕ
  pub post_proxy_time : ℕ

unfoldable pub add_tool_calls : List (String × ℕ) → SessionStats → SessionStats
unfolding add lookup insert
add_tool_calls [] s = s
add_tool_calls ((tool_name, count) ∷ calls) s = add_tool_calls calls (record s {
  tool_calls =
      insert tool_name (add (value_or (lookup tool_name s.tool_calls) 0) count) s.tool_calls;
  total_tool_calls = add s.total_tool_calls count;
})

unfoldable pub count_request : Request → SessionStats → SessionStats
unfolding add
count_request r s = record s {
  request_count = add s.request_count 1;
  input_tokens = add s.input_tokens r.input_tokens;
  output_tokens = add s.output_tokens r.output_tokens;
  thinking_tokens = add s.thinking_tokens r.thinking_tokens;
  thinking_requests =
      if ltb 0 r.thinking_tokens then add s.thinking_requests 1 else s.thinking_requests;
}

unfoldable pub add_times : Request → SessionStats → SessionStats
add_times r s = record s {
  pre_proxy_time = s.pre_proxy_time + r.pre_proxy_time;
  post_proxy_time = s.post_proxy_time + r.post_proxy_time;
}

unfoldable pub remove_key :
    Option String → List (String × SessionStats) → List (String × SessionStats)
unfolding remove
remove_key none stats = stats
remove_key (some key) stats = remove key stats

module _ (first_key : List (String × SessionStats) → Option String) where
  -- Room for a session that is not tracked yet.
  unfoldable pub evict : String → SessionStatsTracker → List (String × SessionStats)
  unfolding is_tracked remove_key lookup
  evict session_id t =
      if leb t.max_sessions (length t.stats) && not (is_tracked (lookup session_id t.stats))
      then remove_key (first_key t.stats) t.stats
      else t.stats

  unfoldable pub record_request : String → Request → SessionStatsTracker → SessionStatsTracker
  unfolding evict add_times add_tool_calls count_request lookup insert
  record_request session_id r t =
      let stats = evict session_id t in
      let entry = value_or (lookup session_id stats) no_stats in
      record t {
        stats =
            insert session_id (add_times r (add_tool_calls r.tool_calls (count_request r entry)))
              stats;
      }

unfoldable pub session_count : SessionStatsTracker → ℕ
session_count t = length t.stats

unfoldable pub get_session_stats : String → SessionStatsTracker → Option SessionStats
unfolding lookup
get_session_stats session_id t = lookup session_id t.stats
