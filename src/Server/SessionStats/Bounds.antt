-- ===== src/Server/SessionStats/Bounds.antt =====
-- How many sessions are tracked, and the sums of their tool calls.
use lunaroute.Prelude.{
  ℕ, ◌+◌, ◌%◌, ◌≤◌, ◌<◌, ◌≡◌, refl, inl, inr, ◌&&◌, not, String, Option, some, List, [], ◌∷◌,
  length, leb, Bool-cases, Option-cases, arith, All, str_eq, value_or,
}
use lunaroute.Prelude.Maps.{lookup, insert, remove, length-insert}
use lunaroute.Prelude.Words.{u64_size}
use lunaroute.Server.SessionStats.{
  SessionStats, SessionStatsTracker, Request, no_stats, new, add, add_tool_calls, count_request,
  add_times, is_tracked, remove_key, evict, record_request,
}

module _ {V : Type 0} where
  remove-shorter : (k : String) (m : List (String × V)) → length (remove k m) ≤ length m
  unfolding remove
  remove-shorter k [] = omega arith
  remove-shorter k ((j, w) ∷ m) = let rest = remove-shorter k m in ground arith

  -- Removing a key that is there makes the map smaller.
  remove-smaller :
      (k : String) (v : V) (m : List (String × V))
      → lookup k m ≡ some v
      → length (remove k m) < length m
  unfolding remove lookup
  remove-smaller k v [] h = cc
  remove-smaller k v ((j, w) ∷ m) h = elim (Bool-cases (str_eq j k)) [
    | inl same ↦ let rest = remove-shorter k m in rw same (omega arith)
    | inr other ↦ let rest = remove-smaller k v m (rw other at h) in rw other (omega arith)
  ]

  -- Replacing keeps the number of keys.
  insert-same :
      (k : String) (v w : V) (m : List (String × V))
      → lookup k m ≡ some w
      → length (insert k v m) ≡ length m
  unfolding insert lookup
  insert-same k v w [] h = cc
  insert-same k v w ((j, u) ∷ m) h = elim (Bool-cases (str_eq j k)) [
    | inl same ↦ rw same refl
    | inr other ↦ let rest = insert-same k v w m (rw other at h) in rw other (omega arith)
  ]

  insert-All :
      (P : V → Type 0) (k : String) (v : V) (m : List (String × V))
      → P v
      → All (λ e. P e.1) m
      → All (λ e. P e.1) (insert k v m)
  unfolding insert
  insert-All P k v [] h t = (h, tt)
  insert-All P k v ((j, u) ∷ m) h (g, t) = elim (Bool-cases (str_eq j k)) [
    | inl same ↦ rw same (h, t)
    | inr other ↦ let rest = insert-All P k v m h t in rw other (g, rest)
  ]

  remove-All :
      (P : V → Type 0) (k : String) (m : List (String × V))
      → All (λ e. P e.1) m
      → All (λ e. P e.1) (remove k m)
  unfolding remove
  remove-All P k [] t = tt
  remove-All P k ((j, u) ∷ m) (g, t) = elim (Bool-cases (str_eq j k)) [
    | inl same ↦ rw same (remove-All P k m t)
    | inr other ↦ let rest = remove-All P k m t in rw other (g, rest)
  ]

  lookup-All :
      (P : V → Type 0) (k : String) (d : V) (m : List (String × V))
      → P d
      → All (λ e. P e.1) m
      → P (value_or (lookup k m) d)
  unfolding lookup
  lookup-All P k d [] h t = h
  lookup-All P k d ((j, u) ∷ m) h (g, t) = elim (Bool-cases (str_eq j k)) [
    | inl same ↦ rw same g
    | inr other ↦ rw other (lookup-All P k d m h t)
  ]

abbrev pub sum_calls : List (String × ℕ) → ℕ
sum_calls [] = 0
sum_calls ((tool, n) ∷ calls) = n + sum_calls calls

-- The total is the sum over the tools, on 64 bits.
abbrev pub AddsUp : SessionStats → Type 0
AddsUp s = s.total_tool_calls % u64_size ≡ sum_calls s.tool_calls % u64_size

sum-insert :
    (k : String) (v : ℕ) (m : List (String × ℕ))
    → sum_calls (insert k v m) + value_or (lookup k m) 0 ≡ sum_calls m + v
unfolding insert lookup
sum-insert k v [] = omega arith
sum-insert k v ((j, w) ∷ m) = elim (Bool-cases (str_eq j k)) [
  | inl same ↦ rw same (omega arith)
  | inr other ↦ let rest = sum-insert k v m in rw other (omega arith)
]

add_tool_calls-AddsUp :
    (calls : List (String × ℕ)) (s : SessionStats) → AddsUp s → AddsUp (add_tool_calls calls s)
unfolding add_tool_calls add
add_tool_calls-AddsUp [] s h = h
add_tool_calls-AddsUp ((tool, n) ∷ calls) s h = add_tool_calls-AddsUp calls _ (
    let summed =
      sum-insert tool ((value_or (lookup tool s.tool_calls) 0 + n) % u64_size) s.tool_calls in
    omega arith)

-- `HashMap::keys().next()` gives a key of a map that is not empty.
abbrev pub GivesKey : (List (String × SessionStats) → Option String) → Type 0
GivesKey first_key =
    (m : List (String × SessionStats))
    → 0 < length m
    → (k : String) × (s : SessionStats) × (first_key m ≡ some k) × (lookup k m ≡ some s)

abbrev IsSound : ℕ → SessionStatsTracker → Type 0
IsSound max t = (t.max_sessions ≡ max) × (length t.stats ≤ max) × All (λ e. AddsUp e.1) t.stats

module _ (first_key : List (String × SessionStats) → Option String) where
  -- The requests in the order in which they are recorded.
  abbrev pub record_all : List (String × Request) → SessionStatsTracker → SessionStatsTracker
  record_all [] t = t
  record_all ((id, r) ∷ requests) t = record_all requests (record_request first_key id r t)

module _ (first_key : List (String × SessionStats) → Option String)
    (gives : GivesKey first_key) where
  evict-All :
      (id : String) (t : SessionStatsTracker)
      → All (λ e. AddsUp e.1) t.stats
      → All (λ e. AddsUp e.1) (evict first_key id t)
  unfolding evict remove_key
  evict-All id t h =
      elim (Bool-cases
        (leb t.max_sessions (length t.stats) && not (is_tracked (lookup id t.stats)))) [
          | inl full ↦ elim (Option-cases (first_key t.stats)) [
            | inl no_key ↦ rw (full, no_key) h
            | inr (k, first) ↦ rw (full, first) (remove-All AddsUp k t.stats h)
          ]
          | inr room ↦ rw room h
        ]

  -- There is room for the session after the eviction.
  evict-room :
      (max : ℕ) (id : String) (s : SessionStats) (t : SessionStatsTracker)
      → 0 < max
      → t.max_sessions ≡ max
      → length t.stats ≤ max
      → length (insert id s (evict first_key id t)) ≤ max
  unfolding evict remove_key is_tracked
  evict-room max id s t positive e few = elim (Bool-cases (leb t.max_sessions (length t.stats))) [
    | inl full ↦ elim (Option-cases (lookup id t.stats)) [
      | inl untracked ↦
          let (k, v, first, there) = gives t.stats (ground arith) in
          let smaller = remove-smaller k v t.stats there in
          let grown = length-insert id s (remove k t.stats) in
          rw (full, untracked, is_tracked, first) (omega arith)
      | inr (v, tracked) ↦
          rw (full, tracked, is_tracked) (rw (insert-same id s v t.stats tracked) few)
    ]
    | inr room ↦ let grown = length-insert id s t.stats in rw room (ground arith)
  ]

  record_request-IsSound :
      (max : ℕ) (id : String) (r : Request) (t : SessionStatsTracker)
      → 0 < max
      → IsSound max t
      → IsSound max (record_request first_key id r t)
  unfolding record_request count_request add_times
  record_request-IsSound max id r t positive (e, few, sums) =
      let kept = evict-All id t sums in
      let entry = lookup-All AddsUp id no_stats (evict first_key id t) refl kept in
      (
        e,
        evict-room max id _ t positive e few,
        insert-All AddsUp id _ (evict first_key id t) (add_tool_calls-AddsUp r.tool_calls _ entry)
            kept,
      )

  record_all-IsSound :
      (max : ℕ) (requests : List (String × Request)) (t : SessionStatsTracker)
      → 0 < max
      → IsSound max t
      → IsSound max (record_all first_key requests t)
  record_all-IsSound max [] t positive h = h
  record_all-IsSound max ((id, r) ∷ requests) t positive h =
      record_all-IsSound max requests (record_request first_key id r t) positive
        (record_request-IsSound max id r t positive h)

  -- When the map gives a key of its own while it is not empty, and at least one session may be tracked, a
  -- new tracker never tracks more sessions than that, whatever requests it records, and of each session
  -- the total of the tool calls is the sum over its tools, on 64 bits.
  pub record_all-new :
      (max : ℕ) (requests : List (String × Request))
      → 0 < max
      → (length (record_all first_key requests (new max)).stats ≤ max)
        × All (λ e. AddsUp e.1) (record_all first_key requests (new max)).stats
  unfolding new
  record_all-new max requests positive =
      let (_, few, sums) =
        record_all-IsSound max requests (new max) positive (refl, omega arith, tt) in
      (few, sums)
