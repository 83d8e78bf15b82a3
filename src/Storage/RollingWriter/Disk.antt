-- ===== src/Storage/RollingWriter/Disk.antt =====
-- The files on the disk as a list.
use Prim.Native.Nat.{zero, suc}
use lunaroute.Prelude.{
  ℕ, ◌≡◌, refl, none, some, List, [], ◌∷◌, ◌++◌, length, get_elem?, ◌==◌, arith, if◌then◌else◌,
}
use lunaroute.Storage.RollingWriter.{Files, update, open_file}

-- The disk holds these files, from the index 0 on, and no others.
abbrev pub Shows : Files → List (List ℕ) → Type 0
Shows files fs = (i : ℕ) → files i ≡ get_elem? fs i

pub get_elem?-at :
    (xs ys : List (List ℕ)) (y : List ℕ) → get_elem? (xs ++ y ∷ ys) (length xs) ≡ some y
get_elem?-at [] ys y = refl
get_elem?-at (x ∷ xs) ys y = get_elem?-at xs ys y

pub get_elem?-end : (xs : List (List ℕ)) → get_elem? xs (length xs) ≡ none
get_elem?-end [] = refl
get_elem?-end (x ∷ xs) = get_elem?-end xs

get_elem?-put :
    (xs ys : List (List ℕ)) (y z : List ℕ) (j : ℕ)
    → (if j == length xs then some z else get_elem? (xs ++ y ∷ ys) j) ≡ get_elem? (xs ++ z ∷ ys) j
get_elem?-put [] ys y z zero = refl
get_elem?-put [] ys y z (suc j) = ground arith
get_elem?-put (x ∷ xs) ys y z zero = ground arith
get_elem?-put (x ∷ xs) ys y z (suc j) = let rest = get_elem?-put xs ys y z j in ground arith

get_elem?-add :
    (xs : List (List ℕ)) (z : List ℕ) (j : ℕ)
    → (if j == length xs then some z else get_elem? xs j) ≡ get_elem? (xs ++ z ∷ []) j
get_elem?-add [] z zero = refl
get_elem?-add [] z (suc j) = ground arith
get_elem?-add (x ∷ xs) z zero = ground arith
get_elem?-add (x ∷ xs) z (suc j) = let rest = get_elem?-add xs z j in ground arith

pub put-Shows :
    (files : Files) (xs ys : List (List ℕ)) (y z : List ℕ)
    → Shows files (xs ++ y ∷ ys)
    → Shows (update files (length xs) z) (xs ++ z ∷ ys)
unfolding update
put-Shows files xs ys y z shows j = rw (shows j) (get_elem?-put xs ys y z j)

add-Shows :
    (files : Files) (xs : List (List ℕ)) (z : List ℕ)
    → Shows files xs
    → Shows (update files (length xs) z) (xs ++ z ∷ [])
unfolding update
add-Shows files xs z shows j = rw (shows j) (get_elem?-add xs z j)

-- Opening a file that there is changes nothing, and a new file is empty.
pub open-Shows :
    (files : Files) (xs ys : List (List ℕ)) (y : List ℕ)
    → Shows files (xs ++ y ∷ ys)
    → Shows (open_file files (length xs)) (xs ++ y ∷ ys)
unfolding open_file
open-Shows files xs ys y shows =
    rw (shows (length xs), get_elem?-at xs ys y) (put-Shows files xs ys y y shows)

pub create-Shows :
    (files : Files) (xs : List (List ℕ))
    → Shows files xs
    → Shows (open_file files (length xs)) (xs ++ [] ∷ [])
unfolding open_file
create-Shows files xs shows = rw (shows (length xs), get_elem?-end xs) (add-Shows files xs [] shows)
