-- ===== src/Storage/RollingWriter/Log.antt =====
-- The files of a rolling writer, as one log.
use Prim.Native.Nat.{zero, suc}
use mathlib.Core.List.{append_assoc, append-nil}
use lunaroute.Prelude.{
  ℕ, ◌≤◌, ◌<◌, ◌≡◌, refl, sym, ap, ◌⊎◌, inl, inr, Option, none, some, List, [], ◌∷◌, ◌++◌, length,
  length-append, leb, Bool-cases, arith, All, subst,
}
use lunaroute.Storage.RollingWriter.{Files, update, RollingWriter, open_file, rotate}
use lunaroute.Storage.RollingWriter.Disk.{
  Shows, put-Shows, create-Shows, get_elem?-at, get_elem?-end,
}

abbrev pub AreFull : ℕ → List (List ℕ) → Type 0
AreFull max fs = All (λ f. max ≤ length f) fs

-- All files but the last are full.
abbrev pub IsLog : ℕ → List (List ℕ) → Type 0
IsLog max [] = Unit
IsLog max (x ∷ []) = Unit
IsLog max (x ∷ y ∷ fs) = (max ≤ length x) × IsLog max (y ∷ fs)

tail-IsLog : (max : ℕ) (x : List ℕ) (fs : List (List ℕ)) → IsLog max (x ∷ fs) → IsLog max fs
tail-IsLog max x [] log = tt
tail-IsLog max x (y ∷ fs) log = log.1

AreFull-append :
    (max : ℕ) (xs ys : List (List ℕ)) → AreFull max xs → AreFull max ys → AreFull max (xs ++ ys)
AreFull-append max [] ys a b = b
AreFull-append max (x ∷ xs) ys (h, a) b = (h, AreFull-append max xs ys a b)

-- A writer of the file at an index.
abbrev pub writer : ℕ → ℕ → Option ℕ → ℕ → RollingWriter
writer max index file size = record {
  max_file_size = max;
  current_index = index;
  current_file = file;
  current_size = size;
}

-- The writer stands at the end of the last file.
abbrev pub at_end : ℕ → List (List ℕ) → List ℕ → RollingWriter
at_end max front last = writer max (length front) (some (length front)) (length last)

-- What a rotation leads to: a last file that is not full, one of those there were or a new one.
abbrev pub Rotated : ℕ → List (List ℕ) → Option (RollingWriter × Files) → Type 0
Rotated max fs result =
    (files' : Files) × (front : List (List ℕ)) × (last : List ℕ) × (result
      ≡ some (at_end max front last, files'))
    × Shows files' (front ++ last ∷ [])
    × AreFull max front
    × (length last < max)
    × ((front ++ last ∷ [] ≡ fs) ⊎ (front ++ last ∷ [] ≡ fs ++ [] ∷ []))

-- A file that is not full is the last.
rest_empty :
    (max : ℕ) (x : List ℕ) (rest : List (List ℕ))
    → IsLog max (x ∷ rest)
    → length x < max
    → rest ≡ []
rest_empty max x [] log free = refl
rest_empty max x (y ∷ rest) log free = absurd (omega (arith, log.0))

-- Rotation ends, when it has one unit of fuel more than there are files from the writer's on.
pub rotate-Rotated :
    (fuel max : ℕ) (done rest : List (List ℕ)) (file : Option ℕ) (size : ℕ) (files : Files)
    → 0 < max
    → Shows files (done ++ rest)
    → AreFull max done
    → IsLog max rest
    → length rest < fuel
    → Rotated max (done ++ rest) (rotate fuel (writer max (length done) file size) files)
unfolding rotate
rotate-Rotated zero max done rest file size files positive shows full log enough =
    absurd (omega arith)
rotate-Rotated (suc fuel) max done [] file size files positive shows full log enough =
    let shown : Shows files done = subst (Shows files) (append-nil done) shows in
    (
      open_file files (length done),
      done,
      [],
      rw (shown (length done), get_elem?-end done) (ground (arith, positive)),
      create-Shows files done shown,
      full,
      positive,
      inr (rw (append-nil done) refl),
    )
rotate-Rotated (suc fuel) max done (x ∷ rest) file size files positive shows full log enough =
    let opened = put-Shows files done rest x x shows in
    elim (Bool-cases (leb max (length x))) [
      | inl filled ↦
          let next =
            rotate-Rotated fuel max (done ++ x ∷ []) rest none (length x)
              (update files (length done) x) positive
              (subst (Shows (update files (length done) x)) (sym (append_assoc done (x ∷ []) rest))
                opened)
              (AreFull-append max done (x ∷ []) full (ground arith, tt)) (tail-IsLog max x rest log)
              (omega arith) in
          rw
            (
              shows (length done),
              get_elem?-at done rest x,
              filled,
              sym (append_assoc done (x ∷ []) rest),
              sym (length-append done (x ∷ [])),
            )
            next
      | inr free ↦
          let none_left = rest_empty max x rest log (ground arith) in
          (
            update files (length done) x,
            done,
            x,
            rw (shows (length done), get_elem?-at done rest x, free) refl,
            subst (λ r. Shows (update files (length done) x) (done ++ x ∷ r)) none_left opened,
            full,
            ground arith,
            inl (ap (λ r. done ++ x ∷ r) (sym none_left)),
          )
    ]

-- All the bytes of the files.
abbrev pub joined : List (List ℕ) → List ℕ
joined [] = []
joined (f ∷ fs) = f ++ joined fs
