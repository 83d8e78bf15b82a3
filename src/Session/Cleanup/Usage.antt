-- ===== src/Session/Cleanup/Usage.antt =====
-- The list of files that the cleanup works on, and the bytes on the disk.
use text.Mathlib.TextPositions.{eq_refl}
use lunaroute.Prelude.{
  ℕ, ◌+◌, ◌≤◌, ◌≡◌, refl, sym, ◌∙◌, inl, inr, Bool, true, false, ◌||◌, String, none, List, [], ◌∷◌,
  length, ltb, leb, Bool-cases, arith, All, str_eq, str_eq_iff, ok,
}
use lunaroute.Prelude.Maps.{lookup, remove, IsUnique}
use lunaroute.Session.Cleanup.{
  Disk, SessionFile, is_session, calculate_disk_usage, file_age_days, days_between, collect,
  insert_by_age, sort_by_age, size_at,
}
use lunaroute.Session.Cleanup.Steps.{reverse_onto}

abbrev pub usage : Disk → ℕ
usage disk = (calculate_disk_usage disk).total_bytes

usage-session :
    (j : String) (w : SessionFile) (disk : Disk)
    → is_session j ≡ true
    → usage ((j, w) ∷ disk) ≡ length w.contents + usage disk
unfolding calculate_disk_usage
usage-session j w disk e = rw (usage, e) refl

usage-other :
    (j : String) (w : SessionFile) (disk : Disk)
    → is_session j ≡ false
    → usage ((j, w) ∷ disk) ≡ usage disk
unfolding calculate_disk_usage
usage-other j w disk e = rw (usage, e) refl

pub size_at-missing : (p : String) (disk : Disk) → lookup p disk ≡ none → size_at p disk ≡ 0
unfolding size_at
size_at-missing p disk e = rw (e, size_at) refl

size_at-head :
    (j p : String) (w : SessionFile) (disk : Disk)
    → str_eq j p ≡ true
    → size_at p ((j, w) ∷ disk) ≡ length w.contents
unfolding size_at lookup
size_at-head j p w disk e = rw (e, size_at) refl

size_at-tail :
    (j p : String) (w : SessionFile) (disk : Disk)
    → str_eq j p ≡ false
    → size_at p ((j, w) ∷ disk) ≡ size_at p disk
unfolding size_at lookup
size_at-tail j p w disk e = rw (e, size_at) refl

pub usage-remove :
    (p : String) (disk : Disk)
    → IsUnique disk
    → is_session p ≡ true
    → usage (remove p disk) + size_at p disk ≡ usage disk
unfolding remove
usage-remove p [] unique session = unfold calculate_disk_usage size_at lookup in refl
usage-remove p ((j, w) ∷ disk) (alone, unique) session =
    let rest = usage-remove p disk unique session in
    elim (Bool-cases (str_eq j p)) [
      | inl same ↦
          let e = (str_eq_iff j p).0 same in
          let missing = size_at-missing p disk (rw (sym e) alone) in
          rw (same, size_at-head j p w disk same, usage-session j w disk (rw e session))
            (omega arith)
      | inr other ↦ elim (Bool-cases (is_session j)) [
        | inl counted ↦
            rw
              (
                other,
                size_at-tail j p w disk other,
                usage-session j w disk counted,
                usage-session j w (remove p disk) counted,
              )
              (omega arith)
        | inr left_out ↦
            rw
              (
                other,
                size_at-tail j p w disk other,
                usage-other j w disk left_out,
                usage-other j w (remove p disk) left_out,
              )
              rest
      ]
    ]

abbrev pub names : String → List (String × ℕ) → Bool
names p [] = false
names p ((q, age) ∷ files) = str_eq q p || names p files

-- The list names session files only, and all that are on the disk.
abbrev pub AreSessions : List (String × ℕ) → Type 0
AreSessions files = All (λ x. is_session x.0 ≡ true) files

abbrev pub Covers : List (String × ℕ) → Disk → Type 0
Covers files disk =
    (p : String) → is_session p ≡ true → names p files ≡ false → lookup p disk ≡ none

found : (j : String) (w : SessionFile) (disk : Disk) → lookup j ((j, w) ∷ disk) ≡ none → ⊥
unfolding lookup
found j w disk h = cc (rw (eq_refl j) at h)

missing_below :
    (j p : String) (w : SessionFile) (disk : Disk)
    → str_eq j p ≡ false
    → lookup p ((j, w) ∷ disk) ≡ none
    → lookup p disk ≡ none
unfolding lookup
missing_below j p w disk other h = rw other at h

pub nothing_left : (disk : Disk) → Covers [] disk → usage disk ≡ 0
nothing_left [] covers = unfold calculate_disk_usage in refl
nothing_left ((j, w) ∷ disk) covers = elim (Bool-cases (is_session j)) [
  | inl counted ↦ absurd (found j w disk (covers j counted refl))
  | inr left_out ↦
      usage-other j w disk left_out
      ∙ nothing_left disk (λ p session h. elim (Bool-cases (str_eq j p)) [
        | inl same ↦ let e = (str_eq_iff j p).0 same in cc
        | inr other ↦ missing_below j p w disk other (covers p session h)
      ])
]

-- Sorting and turning the list round keep its names.
names-insert :
    (p : String) (x : String × ℕ) (files : List (String × ℕ))
    → names p (insert_by_age x files) ≡ (str_eq x.0 p || names p files)
unfolding insert_by_age
names-insert p x [] = refl
names-insert p x (y ∷ files) = let rest = names-insert p x files in ground arith

pub names-sort :
    (p : String) (files : List (String × ℕ)) → names p (sort_by_age files) ≡ names p files
unfolding sort_by_age
names-sort p [] = refl
names-sort p (x ∷ files) = rw (names-insert p x (sort_by_age files), names-sort p files) refl

pub names-reverse :
    (p : String) (done files : List (String × ℕ))
    → names p (reverse_onto done files) ≡ (names p files || names p done)
unfolding reverse_onto
names-reverse p done [] = refl
names-reverse p done (x ∷ files) = let rest = names-reverse p (x ∷ done) files in ground arith

insert-AreSessions :
    (x : String × ℕ) (files : List (String × ℕ))
    → is_session x.0 ≡ true
    → AreSessions files
    → AreSessions (insert_by_age x files)
unfolding insert_by_age
insert-AreSessions x [] e t = (e, tt)
insert-AreSessions x (y ∷ files) e (d, t) = elim (Bool-cases (leb y.1 x.1)) [
  | inl before ↦ rw before (e, (d, t))
  | inr after ↦ let rest = insert-AreSessions x files e t in rw after (d, rest)
]

pub sort-AreSessions :
    (files : List (String × ℕ)) → AreSessions files → AreSessions (sort_by_age files)
unfolding sort_by_age
sort-AreSessions [] t = tt
sort-AreSessions (x ∷ files) (e, t) =
    insert-AreSessions x (sort_by_age files) e (sort-AreSessions files t)

pub reverse-AreSessions :
    (done files : List (String × ℕ))
    → AreSessions done
    → AreSessions files
    → AreSessions (reverse_onto done files)
unfolding reverse_onto
reverse-AreSessions done [] d t = d
reverse-AreSessions done (x ∷ files) d (e, t) = reverse-AreSessions (x ∷ done) files (e, d) t

-- The clock is not behind the files.
abbrev pub AreOld : ℕ → Disk → Type 0
AreOld now disk = All (λ entry. entry.1.modified ≤ now) disk

pub dated :
    (now : ℕ) (w : SessionFile)
    → w.modified ≤ now
    → file_age_days now w ≡ ok (days_between w.modified now)
unfolding file_age_days
dated now w past = let e : ltb now w.modified ≡ false = ground arith in rw e refl

-- What is collected: no error, only session files, and all of them with their ages.
pub collect-Covers :
    (now : ℕ) (disk : Disk)
    → AreOld now disk
    → (files : List (String × ℕ)) × (collect now disk ≡ ok files)
      × AreSessions files
      × Covers files disk
unfolding collect lookup
collect-Covers now [] old = ([], refl, tt, λ p session h. refl)
collect-Covers now ((j, w) ∷ disk) (past, old) =
    let (files, made, sessions, covers) = collect-Covers now disk old in
    elim (Bool-cases (is_session j)) [
      | inl counted ↦ (
        (j, days_between w.modified now) ∷ files,
        rw (counted, dated now w past, made) refl,
        (counted, sessions),
        λ p session h. elim (Bool-cases (str_eq j p)) [
          | inl same ↦ cc (rw same at h)
          | inr other ↦ rw other (covers p session (rw other at h))
        ],
      )
      | inr left_out ↦ (
        files,
        rw left_out made,
        sessions,
        λ p session h. elim (Bool-cases (str_eq j p)) [
          | inl same ↦ let e = (str_eq_iff j p).0 same in cc
          | inr other ↦ rw other (covers p session h)
        ],
      )
    ]
