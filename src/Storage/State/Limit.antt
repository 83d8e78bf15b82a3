-- ===== src/Storage/State/Limit.antt =====
-- How large the state store can grow.
use lunaroute.Prelude.{
  ℕ, ◌+◌, ◌-◌, ◌*◌, ◌≤◌, ◌≡◌, refl, sym, ◌∙◌, subst, inl, inr, String, Option, none, some, List, [],
  ◌∷◌, length, ltb, leb, arith, All, Bool-cases, if◌then◌else◌, str_eq, str_eq_iff,
}
use lunaroute.Prelude.Maps.{
  lookup, insert, remove, lookup-insert, IsUnique, insert-IsUnique, remove-IsUnique,
}
use text.Mathlib.TextPositions.{eq_refl}
use lunaroute.Storage.State.{
  FileStateStore, calculate_state_size, size_of, check_size_limit, set, set_checked, delete,
  increment, growth, insert_all, set_many, to_le_bytes,
}

-- An insertion puts the new size for the old one.
size-insert :
    (k : String) (v : List ℕ) (m : List (String × List ℕ))
    → calculate_state_size (insert k v m) + size_of (lookup k m) ≡ calculate_state_size m + length v
unfolding calculate_state_size insert lookup size_of
size-insert k v [] = omega arith
size-insert k v ((j, w) ∷ m) = elim (Bool-cases (str_eq j k)) [
  | inl same ↦ rw same (omega arith)
  | inr other ↦ let ih = size-insert k v m in rw other (omega arith)
]

size-remove :
    (k : String) (m : List (String × List ℕ))
    → calculate_state_size (remove k m) ≤ calculate_state_size m
unfolding calculate_state_size remove
size-remove k [] = omega arith
size-remove k ((j, w) ∷ m) = elim (Bool-cases (str_eq j k)) [
  | inl same ↦ let ih = size-remove k m in rw same (omega arith)
  | inr other ↦ let ih = size-remove k m in rw other (omega arith)
]

size-lookup :
    (k : String) (m : List (String × List ℕ)) → size_of (lookup k m) ≤ calculate_state_size m
unfolding calculate_state_size lookup size_of
size-lookup k [] = omega arith
size-lookup k ((j, w) ∷ m) = elim (Bool-cases (str_eq j k)) [
  | inl same ↦ rw same (omega arith)
  | inr other ↦ let ih = size-lookup k m in rw other (omega arith)
]

larger : ℕ → ℕ → ℕ
larger a b = if leb a b then b else a

-- Each entry counted with the larger of its size and its size in another map.
larger_size : List (String × List ℕ) → List (String × List ℕ) → ℕ
larger_size before [] = 0
larger_size before ((k, v) ∷ m) =
    larger (length v) (size_of (lookup k before)) + larger_size before m

size-larger_size :
    (before m : List (String × List ℕ)) → calculate_state_size m ≤ larger_size before m
unfolding calculate_state_size larger_size larger
size-larger_size before [] = omega arith
size-larger_size before ((k, v) ∷ m) = let ih = size-larger_size before m in ground arith

larger_size-insert :
    (before : List (String × List ℕ)) (k : String) (v : List ℕ) (m : List (String × List ℕ))
    → (lookup k m ≡ none → lookup k before ≡ none)
    → larger_size before (insert k v m)
      ≤ (length v - size_of (lookup k before)) + larger_size before m
unfolding larger_size insert lookup
larger_size-insert before k v [] known = rw (known refl) (unfold larger size_of in ground arith)
larger_size-insert before k v ((j, w) ∷ m) known = elim (Bool-cases (str_eq j k)) [
  | inl same ↦ let e = (str_eq_iff j k).0 same in rw (same, e) (unfold larger in ground arith)
  | inr other ↦
      let ih = larger_size-insert before k v m (λ h. known (rw other h)) in rw other (omega arith)
]

keys-insert :
    (before : List (String × List ℕ)) (k : String) (v : List ℕ) (m : List (String × List ℕ))
    → ((j : String) → lookup j m ≡ none → lookup j before ≡ none)
    → (j : String) → lookup j (insert k v m) ≡ none
    → lookup j before ≡ none
keys-insert before k v m known j h = elim (Bool-cases (str_eq k j)) [
  | inl same ↦ cc (rw (lookup-insert k j v m, same) at h)
  | inr other ↦ known j (rw (lookup-insert k j v m, other) at h)
]

larger_size-insert_all :
    (before items m : List (String × List ℕ))
    → ((j : String) → lookup j m ≡ none → lookup j before ≡ none)
    → larger_size before (insert_all items m) ≤ larger_size before m + growth before items
unfolding insert_all growth
larger_size-insert_all before [] m known = omega arith
larger_size-insert_all before ((k, v) ∷ items) m known =
    let step = larger_size-insert before k v m (known k) in
    let rest =
      larger_size-insert_all before items (insert k v m) (keys-insert before k v m known) in
    omega arith

none-some : {A : Type 0} {a : A} → ◌≡◌ {A = Option A} none (some a) → ⊥
none-some h = cc

-- The entries are those of the map.
AreEntries : List (String × List ℕ) → List (String × List ℕ) → Type 0
AreEntries before m = All (λ entry. lookup entry.0 before ≡ some entry.1) m

add-AreEntries :
    (k : String) (v : List ℕ) (before m : List (String × List ℕ))
    → lookup k before ≡ none
    → AreEntries before m
    → AreEntries ((k, v) ∷ before) m
unfolding AreEntries lookup
add-AreEntries k v before [] alone a = tt
add-AreEntries k v before ((j, w) ∷ m) alone (e, a) = elim (Bool-cases (str_eq k j)) [
  | inl same ↦
      absurd
        (none-some (sym (subst (λ i. lookup i before ≡ none) ((str_eq_iff k j).0 same) alone) ∙ e))
  | inr other ↦ (rw other e, add-AreEntries k v before m alone a)
]

own-AreEntries : (m : List (String × List ℕ)) → IsUnique m → AreEntries m m
unfolding AreEntries lookup
own-AreEntries [] u = tt
own-AreEntries ((k, v) ∷ m) (alone, u) =
    (rw (eq_refl k) refl, add-AreEntries k v m m alone (own-AreEntries m u))

larger_size-own :
    (before m : List (String × List ℕ))
    → AreEntries before m
    → larger_size before m ≡ calculate_state_size m
unfolding AreEntries larger_size calculate_state_size larger size_of
larger_size-own before [] a = refl
larger_size-own before ((k, v) ∷ m) (e, a) =
    let ih = larger_size-own before m a in rw e (ground arith)

-- A batch grows the state by what is foreseen at most, also where it names a key twice.
size-insert_all :
    (items m : List (String × List ℕ))
    → IsUnique m
    → calculate_state_size (insert_all items m) ≤ calculate_state_size m + growth m items
size-insert_all items m u =
    let now = size-larger_size m (insert_all items m) in
    let later = larger_size-insert_all m items m (λ j h. h) in
    let own = larger_size-own m m (own-AreEntries m u) in omega arith

insert_all-IsUnique :
    (items m : List (String × List ℕ)) → IsUnique m → IsUnique (insert_all items m)
unfolding insert_all
insert_all-IsUnique [] m u = u
insert_all-IsUnique ((k, v) ∷ items) m u =
    insert_all-IsUnique items (insert k v m) (insert-IsUnique k v m u)

-- The calls that write.
pub data Write : Type 0 where
  sets : String → List ℕ → Write
  sets_many : List (String × List ℕ) → Write
  deletes : String → Write
  increments : String → ℕ → Write

abbrev pub apply : Write → FileStateStore → FileStateStore
apply (sets key value) store = (set key value store).0
apply (sets_many items) store = (set_many items store).0
apply (deletes key) store = delete key store
apply (increments key delta) store = (increment key delta store).0

-- The calls in the order in which they are made.
abbrev pub run : List Write → FileStateStore → FileStateStore
run [] store = store
run (w ∷ ws) store = run ws (apply w store)

abbrev pub count_increments : List Write → ℕ
count_increments [] = 0
count_increments (increments key delta ∷ ws) = 1 + count_increments ws
count_increments (_ ∷ ws) = count_increments ws

-- One entry for each key, and no more bytes than the limit and a slack.
abbrev IsBounded : ℕ → ℕ → FileStateStore → Type 0
IsBounded max slack store =
    (store.max_state_size ≡ max)
    × IsUnique store.state
    × (calculate_state_size store.state ≤ max + slack)

set-IsBounded :
    (max slack : ℕ) (key : String) (value : List ℕ) (store : FileStateStore)
    → IsBounded max slack store
    → IsBounded max slack (set key value store).0
unfolding set set_checked check_size_limit
set-IsBounded max slack key value store (e, u, b) =
    let old = size-insert key value store.state in
    let part = size-lookup key store.state in
    elim (Bool-cases (
      ltb store.max_state_size
        (calculate_state_size store.state - size_of (lookup key store.state) + length value))) [
          | inl too_large ↦ rw too_large (e, u, b)
          | inr fits ↦ rw fits (e, insert-IsUnique key value store.state u, ground arith)
        ]

set_many-IsBounded :
    (max slack : ℕ) (items : List (String × List ℕ)) (store : FileStateStore)
    → IsBounded max slack store
    → IsBounded max slack (set_many items store).0
unfolding set_many
set_many-IsBounded max slack items store (e, u, b) =
    let grown = size-insert_all items store.state u in
    elim (Bool-cases
      (ltb store.max_state_size (calculate_state_size store.state + growth store.state items))) [
        | inl too_large ↦ rw too_large (e, u, b)
        | inr fits ↦ rw fits (e, insert_all-IsUnique items store.state u, ground arith)
      ]

delete-IsBounded :
    (max slack : ℕ) (key : String) (store : FileStateStore)
    → IsBounded max slack store
    → IsBounded max slack (delete key store)
unfolding delete
delete-IsBounded max slack key store (e, u, b) =
    (e, remove-IsUnique key store.state u, omega (arith, size-remove key store.state))

increment-IsBounded :
    (max slack : ℕ) (key : String) (delta : ℕ) (store : FileStateStore)
    → IsBounded max slack store
    → IsBounded max (slack + 8) (increment key delta store).0
unfolding increment to_le_bytes
increment-IsBounded max slack key delta store (e, u, b) = (
  e,
  insert-IsUnique key _ store.state u,
  omega (arith, size-insert key (to_le_bytes 8 (increment key delta store).1) store.state),
)

run-IsBounded :
    (ws : List Write) (max slack : ℕ) (store : FileStateStore)
    → IsBounded max slack store
    → IsBounded max (slack + 8 * count_increments ws) (run ws store)
run-IsBounded [] max slack store h = (h.0, h.1, omega (arith, h.2))
run-IsBounded (sets key value ∷ ws) max slack store h =
    run-IsBounded ws max slack (set key value store).0 (set-IsBounded max slack key value store h)
run-IsBounded (sets_many items ∷ ws) max slack store h =
    run-IsBounded ws max slack (set_many items store).0 (set_many-IsBounded max slack items store h)
run-IsBounded (deletes key ∷ ws) max slack store h =
    run-IsBounded ws max slack (delete key store) (delete-IsBounded max slack key store h)
run-IsBounded (increments key delta ∷ ws) max slack store h =
    let (e, u, b) =
      run-IsBounded ws max (slack + 8) (increment key delta store).0
        (increment-IsBounded max slack key delta store h) in
    (e, u, omega arith)

-- Whatever is written to a store within its limit, batches that name a key twice included, the limit
-- is kept but for eight bytes for each increment, which is not checked; and each key keeps one entry.
pub run-within_limit :
    (ws : List Write) (store : FileStateStore)
    → IsUnique store.state
    → calculate_state_size store.state ≤ store.max_state_size
    → (calculate_state_size (run ws store).state ≤ store.max_state_size + 8 * count_increments ws)
      × IsUnique (run ws store).state
run-within_limit ws store u b =
    let (e, u', b') = run-IsBounded ws store.max_state_size 0 store (refl, u, omega arith) in
    (omega arith, u')
