-- ===== src/Storage/State/Counters.antt =====
-- The counters of the state store.
use lunaroute.Prelude.{
  ℕ, zero, suc, ◌+◌, ◌/◌, ◌%◌, ◌^◌, ◌<◌, ◌≡◌, refl, String, List, [], ◌∷◌, arith,
}
use lunaroute.Prelude.Maps.{lookup, lookup-insert_self}
use lunaroute.Prelude.Words.{u64_size}
use lunaroute.Storage.State.{FileStateStore, from_le_bytes, to_le_bytes, counter_of, increment}

-- Reading the bytes of a number gives the number, modulo what so many bytes can hold.
from_le_bytes-to_le_bytes : (k n : ℕ) → n < 256 ^ k → from_le_bytes (to_le_bytes k n) ≡ n
unfolding from_le_bytes to_le_bytes
from_le_bytes-to_le_bytes zero n h = omega arith
from_le_bytes-to_le_bytes (suc k) n h =
    let rest = from_le_bytes-to_le_bytes k (n / 256) (omega arith) in omega arith

-- The increments of one key, one after the other.
abbrev pub increment_all : String → List ℕ → FileStateStore → FileStateStore
increment_all key [] store = store
increment_all key (delta ∷ deltas) store = increment_all key deltas (increment key delta store).0

abbrev pub sum : List ℕ → ℕ
sum [] = 0
sum (x ∷ xs) = x + sum xs

-- What is read after an increment is what the increment returned.
read_back :
    (key : String) (delta : ℕ) (store : FileStateStore)
    → counter_of (lookup key (increment key delta store).0.state) ≡ (increment key delta store).1
unfolding increment counter_of
read_back key delta store =
    rw (lookup-insert_self key (to_le_bytes 8 (increment key delta store).1) store.state)
      (from_le_bytes-to_le_bytes 8 (increment key delta store).1 (omega arith))

added_once :
    (key : String) (delta : ℕ) (store : FileStateStore)
    → (increment key delta store).1 ≡ (counter_of (lookup key store.state) + delta) % u64_size
unfolding increment
added_once key delta store = refl

-- The increments of a key add up, on 64 bits: after any of them, the counter is what it was plus all
-- the deltas, modulo 2 ^ 64.
pub increment_all-sum :
    (key : String) (deltas : List ℕ) (store : FileStateStore)
    → counter_of (lookup key (increment_all key deltas store).state) % u64_size
      ≡ (counter_of (lookup key store.state) + sum deltas) % u64_size
increment_all-sum key [] store = omega arith
increment_all-sum key (delta ∷ deltas) store =
    let later = increment_all-sum key deltas (increment key delta store).0 in
    let now = read_back key delta store in let added = added_once key delta store in omega arith
