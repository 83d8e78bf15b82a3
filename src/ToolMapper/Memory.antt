-- ===== src/ToolMapper/Memory.antt =====
-- What a mapper remembers, as the calls alone determine it.
use lunaroute.Prelude.{
  ℕ, ◌≤◌, ◌≡◌, refl, ◌∙◌, String, Option, none, some, List, [], ◌∷◌, leb, if◌then◌else◌, Bool-cases,
  inl, inr, str_eq, str_eq_iff, arith, subst,
}
use lunaroute.Prelude.Maps.{lookup, insert, lookup-insert, IsUnique, insert-IsUnique}
use lunaroute.ToolMapper.{
  ToolCallMapper, with_ttl, is_fresh, retain_fresh, cleanup_expired, maybe_cleanup, record_call,
  fresh_name, lookup_name,
}

-- A call, at a time after the one before.
pub data Call : Type 0 where
  recorded : String → String → ℕ → Call
  looked_up : String → ℕ → Call

abbrev pub time : Call → ℕ
time (recorded id name now) = now
time (looked_up id now) = now

abbrev pub step : Call → ToolCallMapper → ToolCallMapper
step (recorded id name now) mapper = record_call id name now mapper
step (looked_up id now) mapper = (lookup_name id now mapper).0

-- The calls in the order in which they are made.
abbrev pub run : List Call → ToolCallMapper → ToolCallMapper
run [] mapper = mapper
run (c ∷ cs) mapper = run cs (step c mapper)

-- The times do not go back, from a time on, and end before another.
abbrev pub IsOrdered : ℕ → List Call → ℕ → Type 0
IsOrdered t [] now = t ≤ now
IsOrdered t (c ∷ cs) now = (t ≤ time c) × IsOrdered (time c) cs now

-- The specification: the entry of an id is what was recorded last for it, and nothing is cleaned up.
abbrev pub last_recorded : String → List Call → Option (String × ℕ) → Option (String × ℕ)
last_recorded id [] before = before
last_recorded id (recorded id' name now ∷ cs) before =
    last_recorded id cs (if str_eq id' id then some (name, now) else before)
last_recorded id (looked_up id' now ∷ cs) before = last_recorded id cs before

-- What a cleanup leaves of an entry.
keep_fresh : ℕ → ℕ → Option (String × ℕ) → Option (String × ℕ)
keep_fresh ttl t none = none
keep_fresh ttl t (some (name, timestamp)) =
    if is_fresh ttl t timestamp then some (name, timestamp) else none

some-none : {A : Type 0} {a : A} → ◌≡◌ {A = Option A} (some a) none → ⊥
some-none h = cc

none-retain_fresh :
    (ttl t : ℕ) (id : String) (m : List (String × (String × ℕ)))
    → lookup id m ≡ none
    → lookup id (retain_fresh ttl t m) ≡ none
unfolding lookup retain_fresh
none-retain_fresh ttl t id [] h = refl
none-retain_fresh ttl t id ((k, (name, timestamp)) ∷ m) h = elim (Bool-cases (str_eq k id)) [
  | inl same ↦ absurd (some-none (rw same at h))
  | inr other ↦
      let ih = none-retain_fresh ttl t id m (rw other at h) in
      elim (Bool-cases (is_fresh ttl t timestamp)) [
        | inl fresh ↦ rw fresh (rw other ih)
        | inr stale ↦ rw stale ih
      ]
]

lookup-retain_fresh :
    (ttl t : ℕ) (id : String) (m : List (String × (String × ℕ)))
    → IsUnique m
    → lookup id (retain_fresh ttl t m) ≡ keep_fresh ttl t (lookup id m)
unfolding lookup retain_fresh keep_fresh
lookup-retain_fresh ttl t id [] u = refl
lookup-retain_fresh ttl t id ((k, (name, timestamp)) ∷ m) (alone, u) =
    elim (Bool-cases (str_eq k id)) [
      | inl same ↦
          let gone =
            none-retain_fresh ttl t id m
              (subst (λ i. lookup i m ≡ none) ((str_eq_iff k id).0 same) alone) in
          elim (Bool-cases (is_fresh ttl t timestamp)) [
            | inl fresh ↦ rw (fresh, same) (rw fresh refl)
            | inr stale ↦ rw (stale, same) (rw (stale, gone) refl)
          ]
      | inr other ↦
          let ih = lookup-retain_fresh ttl t id m u in
          elim (Bool-cases (is_fresh ttl t timestamp)) [
            | inl fresh ↦ rw (fresh, other) ih
            | inr stale ↦ rw (stale, other) ih
          ]
    ]

retain_fresh-IsUnique :
    (ttl t : ℕ) (m : List (String × (String × ℕ))) → IsUnique m → IsUnique (retain_fresh ttl t m)
unfolding retain_fresh
retain_fresh-IsUnique ttl t [] u = tt
retain_fresh-IsUnique ttl t ((k, (name, timestamp)) ∷ m) (alone, u) =
    elim (Bool-cases (is_fresh ttl t timestamp)) [
      | inl fresh ↦ rw fresh (none-retain_fresh ttl t k m alone, retain_fresh-IsUnique ttl t m u)
      | inr stale ↦ rw stale (retain_fresh-IsUnique ttl t m u)
    ]

-- Two entries of an id that answer alike at every time from a time on.
abbrev Alike : ℕ → ℕ → Option (String × ℕ) → Option (String × ℕ) → Type 0
Alike ttl t o o' = (now : ℕ) → t ≤ now → fresh_name ttl now o ≡ fresh_name ttl now o'

-- What a cleanup drops would not be answered any more.
keep_fresh-Alike : (ttl t : ℕ) (o : Option (String × ℕ)) → Alike ttl t (keep_fresh ttl t o) o
unfolding keep_fresh fresh_name
keep_fresh-Alike ttl t none now h = refl
keep_fresh-Alike ttl t (some (name, timestamp)) now h = ground arith

-- The mapper answers for the id as the entry does, from a time on.
abbrev Holds : ℕ → String → ℕ → Option (String × ℕ) → ToolCallMapper → Type 0
Holds ttl id t o mapper =
    (mapper.ttl ≡ ttl) × IsUnique mapper.mappings × Alike ttl t (lookup id mapper.mappings) o

later-Holds :
    (ttl : ℕ) (id : String) (t t' : ℕ) (o : Option (String × ℕ)) (mapper : ToolCallMapper)
    → t ≤ t'
    → Holds ttl id t o mapper
    → Holds ttl id t' o mapper
later-Holds ttl id t t' o mapper h (e, u, alike) = (e, u, λ now h'. alike now (omega arith))

maybe_cleanup-Holds :
    (ttl : ℕ) (id : String) (t : ℕ) (o : Option (String × ℕ)) (mapper : ToolCallMapper)
    → Holds ttl id t o mapper
    → Holds ttl id t o (maybe_cleanup t mapper)
unfolding maybe_cleanup cleanup_expired
maybe_cleanup-Holds ttl id t o mapper (e, u, alike) =
    elim (Bool-cases (leb mapper.cleanup_threshold mapper.ops_since_cleanup)) [
      | inl due ↦ rw due (
        e,
        retain_fresh-IsUnique mapper.ttl t mapper.mappings u,
        λ now h.
            rw (lookup-retain_fresh mapper.ttl t id mapper.mappings u, e)
              (keep_fresh-Alike ttl t (lookup id mapper.mappings) now h ∙ alike now h),
      )
      | inr early ↦ rw early (e, u, alike)
    ]

insert-Holds :
    (ttl : ℕ) (id id' name : String) (t : ℕ) (o : Option (String × ℕ)) (mapper : ToolCallMapper)
    → Holds ttl id t o mapper
    → Holds ttl id t
        (if str_eq id' id then some (name, t) else o)
        (record mapper { mappings = insert id' (name, t) mapper.mappings })
insert-Holds ttl id id' name t o mapper (e, u, alike) = (
  e,
  insert-IsUnique id' (name, t) mapper.mappings u,
  λ now h. rw (lookup-insert id' id (name, t) mapper.mappings) (elim (Bool-cases (str_eq id' id)) [
    | inl same ↦ rw same refl
    | inr other ↦ rw other (alike now h)
  ]),
)

run-Holds :
    (ttl : ℕ) (id : String) (cs : List Call) (t now : ℕ) (o : Option (String × ℕ))
    (mapper : ToolCallMapper)
    → IsOrdered t cs now
    → Holds ttl id t o mapper
    → Holds ttl id now (last_recorded id cs o) (run cs mapper)
unfolding record_call lookup_name
run-Holds ttl id [] t now o mapper h holds = later-Holds ttl id t now o mapper h holds
run-Holds ttl id (recorded id' name t' ∷ cs) t now o mapper (h, ordered) holds =
    run-Holds ttl id cs t' now _ _ ordered (
      maybe_cleanup-Holds ttl id t' _ _
        (insert-Holds ttl id id' name t' o mapper (later-Holds ttl id t t' o mapper h holds)))
run-Holds ttl id (looked_up id' t' ∷ cs) t now o mapper (h, ordered) holds =
    run-Holds ttl id cs t' now o _ ordered
      (maybe_cleanup-Holds ttl id t' o mapper (later-Holds ttl id t t' o mapper h holds))

new-Holds : (ttl : ℕ) (id : String) → Holds ttl id 0 none (with_ttl ttl)
unfolding with_ttl lookup
new-Holds ttl id = (refl, tt, λ now h. refl)

-- After any calls of a new mapper, at times that do not go back, a lookup gives the name that was
-- recorded last for the id if less than the time to live has passed since, and nothing otherwise: no
-- cleanup, and no call for another id, shows in the answer.
pub lookup_name-last_recorded :
    (ttl : ℕ) (id : String) (cs : List Call) (now : ℕ)
    → IsOrdered 0 cs now
    → (lookup_name id now (run cs (with_ttl ttl))).1 ≡ fresh_name ttl now (last_recorded id cs none)
unfolding lookup_name
lookup_name-last_recorded ttl id cs now ordered =
    let (e, u, alike) =
      maybe_cleanup-Holds ttl id now _ (run cs (with_ttl ttl))
        (run-Holds ttl id cs 0 now none (with_ttl ttl) ordered (new-Holds ttl id)) in
    rw e (alike now (omega arith))
