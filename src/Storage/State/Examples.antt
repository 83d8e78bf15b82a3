-- ===== src/Storage/State/Examples.antt =====
-- The state store at concrete inputs.
use lunaroute.Prelude.{◌+◌, ◌*◌, ◌≤◌, ◌≡◌, refl, List, [], ◌∷◌, arith}
use lunaroute.Prelude.Maps.{lookup, insert, IsUnique}
use lunaroute.Storage.State.{FileStateStore, calculate_state_size, to_le_bytes, increment}
use lunaroute.Storage.State.Limit.{
  Write, sets, sets_many, deletes, increments, run, run-within_limit,
}

abbrev small : FileStateStore
small = record { state = ("a", 1 ∷ 2 ∷ []) ∷ []; max_state_size = 6 }

abbrev writes : List Write
writes =
    sets_many (("a", []) ∷ ("b", 5 ∷ []) ∷ ("a", 1 ∷ 2 ∷ 3 ∷ []) ∷ [])
    ∷ sets "c" (1 ∷ 2 ∷ 3 ∷ [])
    ∷ increments "n" 7
    ∷ deletes "a"
    ∷ []

run-within_limit_example :
    (calculate_state_size (run writes small).state ≤ 6 + 8 * 1) × IsUnique (run writes small).state
unfolding calculate_state_size lookup
run-within_limit_example = run-within_limit writes small (refl, tt) (omega arith)

-- An increment passes the limit, which a set of the same size does not.
passes_limit : calculate_state_size (increment "n" 7 small).0.state ≡ 10
unfolding increment calculate_state_size lookup insert to_le_bytes
passes_limit = refl
