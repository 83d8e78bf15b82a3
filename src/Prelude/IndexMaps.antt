-- ===== src/Prelude/IndexMaps.antt =====
-- Rust's HashMap with numbers as keys, as association lists.
use Prim.Native.Nat.{ℕ}
use mathlib.Core.List.{List, [], ◌∷◌}
use mathlib.Core.Option.{Option, none, some}
use lunaroute.Prelude.Tests.{◌==◌, if◌then◌else◌}

module _ {ℓ} {V : Type ℓ} where
  -- `map.get(&k)`.
  unfoldable pub lookup_index : ℕ → List (ℕ × V) → Option V
  lookup_index k [] = none
  lookup_index k ((j, v) ∷ m) = let rest = lookup_index k m in if j == k then some v else rest

  -- `map.insert(k, v)`: the entry of a present key is replaced.
  unfoldable pub insert_index : ℕ → V → List (ℕ × V) → List (ℕ × V)
  insert_index k v [] = (k, v) ∷ []
  insert_index k v ((j, w) ∷ m) = if j == k then (k, v) ∷ m else (j, w) ∷ insert_index k v m

  -- `map.remove(&k)`.
  unfoldable pub remove_index : ℕ → List (ℕ × V) → List (ℕ × V)
  remove_index k [] = []
  remove_index k ((j, w) ∷ m) =
      let rest = remove_index k m in if j == k then rest else (j, w) ∷ rest
