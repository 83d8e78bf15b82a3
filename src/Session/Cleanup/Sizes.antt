-- ===== src/Session/Cleanup/Sizes.antt =====
-- What is left after the size limit is enforced.
use lunaroute.Prelude.{
  ℕ, ◌+◌, ◌-◌, ◌*◌, ◌≤◌, ◌≡◌, refl, sym, ◌∙◌, subst, inl, inr, Bool, true, false, ◌||◌, String,
  Option, none, some, List, [], ◌∷◌, ltb, leb, Bool-cases, Option-cases, arith, str_eq, str_eq_iff,
  Result, ok,
}
use lunaroute.Prelude.Maps.{lookup, remove, lookup-remove, IsUnique, remove-IsUnique}
use lunaroute.Session.Cleanup.{Disk, CleanupStats, RetentionPolicy, sort_by_age, exists, size_at}
use lunaroute.Session.Cleanup.Steps.{
  delete_older, retain_existing, step_age, step_size, run_steps, execute_cleanup, reverse_onto,
  delete_until, no_stats,
}
use lunaroute.Session.Cleanup.Usage.{
  usage, usage-remove, names, AreSessions, Covers, nothing_left, names-sort, names-reverse,
  sort-AreSessions, reverse-AreSessions, AreOld, collect-Covers,
}

missing : (p : String) (disk : Disk) → exists p disk ≡ false → lookup p disk ≡ none
unfolding exists
missing p disk h = elim (Option-cases (lookup p disk)) [
  | inl gone ↦ gone
  | inr (file, there) ↦ cc (rw (there, exists) at h)
]

-- A file that is deleted need not be listed any more.
remove-Covers :
    (path : String) (age : ℕ) (files : List (String × ℕ)) (disk : Disk)
    → Covers ((path, age) ∷ files) disk
    → Covers files (remove path disk)
remove-Covers path age files disk covers p session h = elim (Bool-cases (str_eq path p)) [
  | inl same ↦ rw (lookup-remove path p disk, same) refl
  | inr other ↦ rw (lookup-remove path p disk, other) (covers p session (rw (other, h) refl))
]

skip-Covers :
    (path : String) (age : ℕ) (files : List (String × ℕ)) (disk : Disk)
    → lookup path disk ≡ none
    → Covers ((path, age) ∷ files) disk
    → Covers files disk
skip-Covers path age files disk gone covers p session h = elim (Bool-cases (str_eq path p)) [
  | inl same ↦ subst (λ q. lookup q disk ≡ none) ((str_eq_iff path p).0 same) gone
  | inr other ↦ covers p session (rw (other, h) refl)
]

delete_until-usage :
    (bytes_to_free freed max : ℕ) (files : List (String × ℕ)) (disk : Disk) (stats : CleanupStats)
    → IsUnique disk
    → AreSessions files
    → Covers files disk
    → usage disk + freed ≤ max + bytes_to_free
    → usage (delete_until bytes_to_free freed files disk stats).0 ≤ max
unfolding delete_until
delete_until-usage to_free freed max [] disk stats unique sessions covers within =
    rw (nothing_left disk covers) (omega arith)
delete_until-usage to_free freed max ((path, age) ∷ files) disk stats unique (session, sessions)
      covers within =
    elim (Bool-cases (leb to_free freed)) [
      | inl enough ↦ rw enough (ground arith)
      | inr more ↦ elim (Bool-cases (exists path disk)) [
        | inl there ↦
            let removed = usage-remove path disk unique session in
            rw (more, there)
              (delete_until-usage to_free (freed + size_at path disk) max files (remove path disk) _
                (remove-IsUnique path disk unique) sessions
                (remove-Covers path age files disk covers) (omega arith))
        | inr gone ↦
            rw (more, gone)
              (delete_until-usage to_free freed max files disk stats unique sessions
                (skip-Covers path age files disk (missing path disk gone) covers) within)
      ]
    ]

delete_older-Covers :
    (max_age : ℕ) (files all : List (String × ℕ)) (disk : Disk) (stats : CleanupStats)
    → IsUnique disk
    → Covers all disk
    → IsUnique (delete_older max_age files disk stats).0
      × Covers all (delete_older max_age files disk stats).0
unfolding delete_older
delete_older-Covers max_age [] all disk stats unique covers = (unique, covers)
delete_older-Covers max_age ((path, age) ∷ files) all disk stats unique covers =
    elim (Bool-cases (ltb max_age age)) [
      | inl older ↦ rw older (
          delete_older-Covers max_age files all (remove path disk) _
            (remove-IsUnique path disk unique)
            λ p session h. rw (lookup-remove path p disk, covers p session h) (ground arith))
      | inr younger ↦ rw younger (delete_older-Covers max_age files all disk stats unique covers)
    ]

names-retain :
    (p : String) (files : List (String × ℕ)) (disk : Disk)
    → exists p disk ≡ true
    → names p files ≡ true
    → names p (retain_existing files disk) ≡ true
unfolding retain_existing
names-retain p [] disk there h = cc
names-retain p ((q, age) ∷ files) disk there h = elim (Bool-cases (str_eq q p)) [
  | inl same ↦
      let there' = subst (λ r. exists r disk ≡ true) (sym ((str_eq_iff q p).0 same)) there in
      rw (there', same) refl
  | inr other ↦
      let rest = names-retain p files disk there (rw other at h) in
      elim (Bool-cases (exists q disk)) [
        | inl kept ↦ rw (kept, other) rest
        | inr dropped ↦ rw dropped rest
      ]
]

retain-Covers :
    (files : List (String × ℕ)) (disk : Disk)
    → Covers files disk
    → Covers (retain_existing files disk) disk
retain-Covers files disk covers p session h = elim (Bool-cases (exists p disk)) [
  | inl there ↦ elim (Bool-cases (names p files)) [
    | inl listed ↦ cc (sym (names-retain p files disk there listed) ∙ h)
    | inr not_listed ↦ covers p session not_listed
  ]
  | inr gone ↦ missing p disk gone
]

retain-AreSessions :
    (files : List (String × ℕ)) (disk : Disk)
    → AreSessions files
    → AreSessions (retain_existing files disk)
unfolding retain_existing
retain-AreSessions [] disk t = tt
retain-AreSessions ((q, age) ∷ files) disk (e, t) = elim (Bool-cases (exists q disk)) [
  | inl kept ↦ let rest = retain-AreSessions files disk t in rw kept (e, rest)
  | inr dropped ↦ rw dropped (retain-AreSessions files disk t)
]

-- After step 1 the list still names session files only, and all that are left.
abbrev AgeStepped : List (String × ℕ) × (Disk × CleanupStats) → Type 0
AgeStepped after = IsUnique after.1.0 × AreSessions after.0 × Covers after.0 after.1.0

step_age-AgeStepped :
    (max_age : Option ℕ) (files : List (String × ℕ)) (disk : Disk) (stats : CleanupStats)
    → IsUnique disk
    → AreSessions files
    → Covers files disk
    → AgeStepped (step_age max_age files disk stats)
unfolding step_age
step_age-AgeStepped none files disk stats unique sessions covers = (unique, sessions, covers)
step_age-AgeStepped (some max_age) files disk stats unique sessions covers =
    let (unique', covers') = delete_older-Covers max_age files files disk stats unique covers in
    (unique', retain-AreSessions files _ sessions, retain-Covers files _ covers')

or_none : (b : Bool) → (b || false) ≡ b
or_none b = ground arith

step_size-usage :
    (gb : ℕ) (files : List (String × ℕ)) (disk : Disk) (stats : CleanupStats)
    → IsUnique disk
    → AreSessions files
    → Covers files disk
    → usage (step_size (some gb) files disk stats).0 ≤ gb * 1_073_741_824
unfolding step_size
step_size-usage gb files disk stats unique sessions covers =
    elim (Bool-cases (ltb (gb * 1_073_741_824) (usage disk))) [
      | inl over ↦ rw over (
          delete_until-usage (usage disk - gb * 1_073_741_824) 0 (gb * 1_073_741_824)
            (reverse_onto [] files) disk stats unique (reverse-AreSessions [] files tt sessions)
            (λ p session h.
              covers p session (sym (or_none (names p files)) ∙ sym (names-reverse p [] files) ∙ h))
            (ground arith))
      | inr within ↦ rw within (ground arith)
    ]

-- When no file is newer than the clock and no compression is asked for, a cleanup succeeds, and then the
-- session files take at most the gigabytes of the limit, whether or not old ones are deleted as well.
pub execute_cleanup-usage :
    (encode_all : List ℕ → Result String (List ℕ)) (now gb : ℕ) (max_age : Option ℕ) (disk : Disk)
    → IsUnique disk
    → AreOld now disk
    → let policy : RetentionPolicy = record {
      max_age_days = max_age;
      max_total_size_gb = some gb;
      compress_after_days = none;
    } in
      let after = execute_cleanup encode_all now policy disk in
      ((stats : CleanupStats) × (after.1 ≡ ok stats)) × (usage after.0 ≤ gb * 1_073_741_824)
unfolding execute_cleanup run_steps
execute_cleanup-usage encode_all now gb max_age disk unique old =
    let (files, made, sessions, covers) = collect-Covers now disk old in
    let sorted : Covers (sort_by_age files) disk =
      λ p session h. covers p session (sym (names-sort p files) ∙ h) in
    let (unique', sessions', covers') =
      step_age-AgeStepped max_age (sort_by_age files) disk no_stats unique
        (sort-AreSessions files sessions) sorted in
    rw (made, execute_cleanup) ((_, refl), step_size-usage gb _ _ _ unique' sessions' covers')
