-- ===== src/Storage/State.antt =====
-- crates/lunaroute-storage/src/state.rs: the state store in memory. A value is its bytes; the lock
-- makes each call one step. The sum in `increment` panics or wraps past i64, by the build; the wrap
-- of a release build is modelled.
pub mod Limit
pub mod Counters
mod Examples
use Prim.Native.Nat.{zero, suc}
use lunaroute.Prelude.{
  ℕ, ◌+◌, ◌-◌, ◌/◌, ◌%◌, ◌*◌, Bool, true, false, String, Option, none, some, List, [], ◌∷◌, length,
  map, ltb, ◌==◌, if◌then◌else◌, Result, ok, err, map_some, and_then, value_or,
}
use Prim.Native.String.{◌++◌ as str_append}
use lunaroute.Prelude.Texts.{begins_with, show_u64}
use lunaroute.Prelude.Maps.{lookup, insert, remove}
use lunaroute.Prelude.Words.{u64_size}
use lunaroute.Storage.{StorageError, invalid_data}

pub record FileStateStore : Type 0 where
  pub state : List (String × List ℕ)
  pub max_state_size : ℕ

-- 500 MB.
abbrev pub max_state_memory_size : ℕ
max_state_memory_size = 524_288_000

size_message : String → ℕ → ℕ → String
size_message what size max =
    str_append what
      (str_append (show_u64 size) (str_append " bytes (max " (str_append (show_u64 max) " bytes)")))

-- `calculate_state_size`.
unfoldable pub calculate_state_size : List (String × List ℕ) → ℕ
calculate_state_size [] = 0
calculate_state_size ((k, v) ∷ m) = length v + calculate_state_size m

-- The store that `new` makes of what the file holds, once it is parsed.
unfoldable pub new : List (String × List ℕ) → Result StorageError FileStateStore
unfolding calculate_state_size size_message
new loaded =
    if ltb max_state_memory_size (calculate_state_size loaded)
    then err (
        invalid_data (
          size_message "State data too large: " (calculate_state_size loaded)
            max_state_memory_size))
    else ok (record { state = loaded; max_state_size = max_state_memory_size })

-- `state.get(key).map(|v| v.len()).unwrap_or(0)`.
unfoldable pub size_of : Option (List ℕ) → ℕ
size_of none = 0
size_of (some v) = length v

unfoldable pub check_size_limit :
    List (String × List ℕ) → String → ℕ → ℕ → Result StorageError (Unit {0})
unfolding size_of calculate_state_size lookup size_message
check_size_limit state key new_value_size max_size =
    let new_size = calculate_state_size state - size_of (lookup key state) + new_value_size in
    if ltb max_size new_size
    then err (invalid_data (size_message "State size limit exceeded: " new_size max_size))
    else ok tt

set_checked :
    Result StorageError (Unit {0})
    → String
    → List ℕ
    → FileStateStore
    → FileStateStore × Result StorageError (Unit {0})
unfolding insert
set_checked (err e) key value store = (store, err e)
set_checked (ok x) key value store = (record store { state = insert key value store.state }, ok tt)

unfoldable pub set :
    String → List ℕ → FileStateStore → FileStateStore × Result StorageError (Unit {0})
unfolding set_checked check_size_limit
set key value store =
    set_checked (check_size_limit store.state key (length value) store.max_state_size) key value
      store

unfoldable pub get : String → FileStateStore → Option (List ℕ)
unfolding lookup
get key store = lookup key store.state

unfoldable pub delete : String → FileStateStore → FileStateStore
unfolding remove
delete key store = record store { state = remove key store.state }

is_present : Option (List ℕ) → Bool
is_present none = false
is_present (some v) = true

unfoldable pub exists : String → FileStateStore → Bool
unfolding is_present lookup
exists key store = is_present (lookup key store.state)

keys_of : String → List (String × List ℕ) → List String
unfolding begins_with
keys_of prefix [] = []
keys_of prefix ((k, v) ∷ m) =
    let rest = keys_of prefix m in if begins_with prefix k then k ∷ rest else rest

-- In the order of the map.
unfoldable pub list_keys : String → FileStateStore → List String
unfolding keys_of
list_keys prefix store = keys_of prefix store.state

-- `i64::from_le_bytes`, as the number of the bit pattern.
unfoldable pub from_le_bytes : List ℕ → ℕ
from_le_bytes [] = 0
from_le_bytes (b ∷ bs) = b + 256 * from_le_bytes bs

-- So many bytes of `to_le_bytes`.
unfoldable pub to_le_bytes : ℕ → ℕ → List ℕ
to_le_bytes zero n = []
to_le_bytes (suc k) n = n % 256 ∷ to_le_bytes k (n / 256)

-- A value of eight bytes is a number, and any other is zero.
unfoldable pub counter_of : Option (List ℕ) → ℕ
unfolding from_le_bytes
counter_of none = 0
counter_of (some v) = if length v == 8 then from_le_bytes v else 0

-- The delta and the result are bit patterns of i64.
unfoldable pub increment : String → ℕ → FileStateStore → FileStateStore × ℕ
unfolding counter_of to_le_bytes insert lookup
increment key delta store =
    let new_value = (counter_of (lookup key store.state) + delta) % u64_size in
    (record store { state = insert key (to_le_bytes 8 new_value) store.state }, new_value)

unfoldable pub get_many : List String → FileStateStore → List (Option (List ℕ))
unfolding lookup
get_many keys store = map (λ k. lookup k store.state) keys

-- By how much the items may make the state grow.
unfoldable pub growth : List (String × List ℕ) → List (String × List ℕ) → ℕ
unfolding size_of lookup
growth state [] = 0
growth state ((k, v) ∷ items) = (length v - size_of (lookup k state)) + growth state items

unfoldable pub insert_all : List (String × List ℕ) → List (String × List ℕ) → List (String × List ℕ)
unfolding insert
insert_all [] state = state
insert_all ((k, v) ∷ items) state = insert_all items (insert k v state)

unfoldable pub set_many :
    List (String × List ℕ) → FileStateStore → FileStateStore × Result StorageError (Unit {0})
unfolding growth insert_all calculate_state_size size_message
set_many items store =
    let projected_size = calculate_state_size store.state + growth store.state items in
    if ltb store.max_state_size projected_size
    then (
      store,
      err (
          invalid_data (
            size_message "Batch insert would exceed state size limit: " projected_size
              store.max_state_size)),
    )
    else (record store { state = insert_all items store.state }, ok tt)
