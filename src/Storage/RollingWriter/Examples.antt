-- ===== src/Storage/RollingWriter/Examples.antt =====
-- The rolling writer at concrete inputs.
use lunaroute.Prelude.{
  ℕ, ◌≡◌, refl, inr, some, List, [], ◌∷◌, ◌++◌, arith, get_elem?, Bool, true, ◌&&◌, ltb, ok, err,
}
use lunaroute.Storage.RollingWriter.{
  Files, RollingWriter, new, filled_lines, read_all, invalid_data,
}
use lunaroute.Storage.RollingWriter.Log.{joined}
use lunaroute.Storage.RollingWriter.Writes.{write_all, write_all-read_all}

-- A file of seven bytes, full at five.
abbrev old : List (List ℕ)
old = (97 ∷ 98 ∷ 99 ∷ 100 ∷ 101 ∷ 102 ∷ 10 ∷ []) ∷ []

abbrev disk : Files
disk i = get_elem? old i

abbrev added : List (List ℕ)
added = (103 ∷ 13 ∷ 10 ∷ []) ∷ (10 ∷ []) ∷ (104 ∷ 105 ∷ 10 ∷ []) ∷ []

-- A text of ASCII is UTF-8.
abbrev is_ascii : List ℕ → Bool
is_ascii [] = true
is_ascii (b ∷ bs) = ltb b 128 && is_ascii bs

is_ascii-append : (a b : List ℕ) → is_ascii a ≡ true → is_ascii b ≡ true → is_ascii (a ++ b) ≡ true
is_ascii-append [] b h h' = h'
is_ascii-append (x ∷ a) b h h' = ground (arith, is_ascii-append a b)

write_all-read_all_example :
    (w : RollingWriter) × (files' : Files) × (write_all 9 added (new 5) disk ≡ some (w, files'))
    × (read_all is_ascii 9 files'
        ≡ some (ok (filled_lines (joined old) ++ filled_lines (joined added))))
write_all-read_all_example =
    write_all-read_all is_ascii refl is_ascii-append 9 5 old added disk (omega arith) (λ i. refl) tt
      ((inr (97 ∷ 98 ∷ 99 ∷ 100 ∷ 101 ∷ 102 ∷ [], refl), refl), tt)
      (
        (inr (103 ∷ 13 ∷ [], refl), refl),
        ((inr ([], refl), refl), ((inr (104 ∷ 105 ∷ [], refl), refl), tt)),
      )
      (omega arith)

abbrev invalid : Files
invalid i = get_elem? ((0xff ∷ 10 ∷ []) ∷ []) i

invalid_refused : read_all is_ascii 9 invalid ≡ some (err invalid_data)
unfolding read_all
invalid_refused = refl

lines_read : filled_lines (joined added) ≡ (103 ∷ []) ∷ (104 ∷ 105 ∷ []) ∷ []
unfolding filled_lines
lines_read = refl
