-- ===== src/Session/Cleanup/Ages.antt =====
-- Which files are deleted for their age.
use lunaroute.Prelude.{
  ℕ, ◌≡◌, refl, ap, ◌∙◌, subst, inl, inr, Bool, true, false, ◌||◌, ◌&&◌, String, Option, none, some,
  List, [], ◌∷◌, ltb, if◌then◌else◌, Bool-cases, arith, str_eq, str_eq_iff, Result, ok,
}
use lunaroute.Prelude.Maps.{lookup, remove, lookup-remove, IsUnique}
use lunaroute.Session.Cleanup.{
  Disk, SessionFile, CleanupStats, RetentionPolicy, is_session, days_between, collect,
  insert_by_age, sort_by_age, size_at,
}
use lunaroute.Session.Cleanup.Steps.{
  delete_older, step_age, step_compress, step_size, count_deleted, run_steps, execute_cleanup,
  no_stats,
}
use lunaroute.Session.Cleanup.Usage.{AreOld, dated}

-- The list has a path with an age above the maximum.
listed_older : ℕ → String → List (String × ℕ) → Bool
listed_older max_age p [] = false
listed_older max_age p ((q, age) ∷ files) =
    (str_eq q p && ltb max_age age) || listed_older max_age p files

delete_older-lookup :
    (max_age : ℕ) (p : String) (files : List (String × ℕ)) (disk : Disk) (stats : CleanupStats)
    → lookup p (delete_older max_age files disk stats).0
      ≡ (if listed_older max_age p files then none else lookup p disk)
unfolding delete_older listed_older
delete_older-lookup max_age p [] disk stats = refl
delete_older-lookup max_age p ((q, age) ∷ files) disk stats = elim (Bool-cases (ltb max_age age)) [
  | inl older ↦
      let rest =
        delete_older-lookup max_age p files (remove q disk)
          (count_deleted (size_at q disk) stats) in
      let removed = lookup-remove q p disk in rw (older, rest, removed) (ground arith)
  | inr younger ↦
      let rest = delete_older-lookup max_age p files disk stats in rw (younger, rest) (ground arith)
]

older-insert :
    (max_age : ℕ) (p : String) (x : String × ℕ) (files : List (String × ℕ))
    → listed_older max_age p (insert_by_age x files) ≡ listed_older max_age p (x ∷ files)
unfolding insert_by_age listed_older
older-insert max_age p x [] = refl
older-insert max_age p x (y ∷ files) = let rest = older-insert max_age p x files in ground arith

older-sort :
    (max_age : ℕ) (p : String) (files : List (String × ℕ))
    → listed_older max_age p (sort_by_age files) ≡ listed_older max_age p files
unfolding sort_by_age listed_older
older-sort max_age p [] = refl
older-sort max_age p (x ∷ files) =
    older-insert max_age p x (sort_by_age files)
    ∙ ap (λ r. (str_eq x.0 p && ltb max_age x.1) || r) (older-sort max_age p files)

-- A session file that is older than so many days.
abbrev pub is_due : ℕ → ℕ → String → Option SessionFile → Bool
is_due max_age now p none = false
is_due max_age now p (some file) = is_session p && ltb max_age (days_between file.modified now)

collect-due :
    (now : ℕ) (disk : Disk)
    → IsUnique disk
    → AreOld now disk
    → (files : List (String × ℕ)) × (collect now disk ≡ ok files)
      × ((max_age : ℕ) (p : String)
          → listed_older max_age p files ≡ is_due max_age now p (lookup p disk))
unfolding collect lookup listed_older
collect-due now [] unique old = ([], refl, λ max_age p. refl)
collect-due now ((j, w) ∷ disk) (alone, unique) (past, old) =
    let (files, made, due) = collect-due now disk unique old in
    elim (Bool-cases (is_session j)) [
      | inl counted ↦ (
        (j, days_between w.modified now) ∷ files,
        rw (counted, dated now w past, made) refl,
        λ max_age p. elim (Bool-cases (str_eq j p)) [
          | inl same ↦
              let e = (str_eq_iff j p).0 same in
              let gone : lookup p disk ≡ none = subst (λ r. lookup r disk ≡ none) e alone in
              let rest : listed_older max_age p files ≡ false =
                due max_age p ∙ ap (is_due max_age now p) gone in
              let session = subst (λ r. is_session r ≡ true) e counted in
              rw (same, rest, session) (ground arith)
          | inr other ↦ rw (other, due max_age p) refl
        ],
      )
      | inr left_out ↦ (
        files,
        rw left_out made,
        λ max_age p. elim (Bool-cases (str_eq j p)) [
          | inl same ↦
              let e = (str_eq_iff j p).0 same in
              let gone : lookup p disk ≡ none = subst (λ r. lookup r disk ≡ none) e alone in
              let rest : listed_older max_age p files ≡ false =
                due max_age p ∙ ap (is_due max_age now p) gone in
              let session = subst (λ r. is_session r ≡ false) e left_out in
              rw (same, rest, session) refl
          | inr other ↦ rw (other, due max_age p) refl
        ],
      )
    ]

-- When no file is newer than the clock and only a maximal age is asked for, a cleanup succeeds, and of
-- every path it leaves what is there, but for a file in a date directory whose age in whole days is
-- above the maximum, which is gone.
pub execute_cleanup-ages :
    (encode_all : List ℕ → Result String (List ℕ)) (now max_age : ℕ) (disk : Disk)
    → IsUnique disk
    → AreOld now disk
    → let policy : RetentionPolicy = record {
      max_age_days = some max_age;
      max_total_size_gb = none;
      compress_after_days = none;
    } in
      let after = execute_cleanup encode_all now policy disk in
      ((stats : CleanupStats) × (after.1 ≡ ok stats))
      × ((p : String)
          → lookup p after.0
            ≡ (if is_due max_age now p (lookup p disk) then none else lookup p disk))
unfolding execute_cleanup run_steps step_age step_compress step_size
execute_cleanup-ages encode_all now max_age disk unique old =
    let (files, made, due) = collect-due now disk unique old in
    rw (made, execute_cleanup)
      (
        (_, refl),
        λ p.
            delete_older-lookup max_age p (sort_by_age files) disk no_stats
            ∙ ap (λ b. if b then none else lookup p disk)
                (older-sort max_age p files ∙ due max_age p),
      )
