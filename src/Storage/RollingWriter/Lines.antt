-- ===== src/Storage/RollingWriter/Lines.antt =====
-- Lines of files that are put together.
use mathlib.Core.List.{append_assoc, append-nil}
use lunaroute.Prelude.{
  ℕ, ◌≡◌, refl, sym, ap, ◌∙◌, ◌⊎◌, inl, inr, List, [], ◌∷◌, ◌++◌, ◌==◌, Bool-cases, is_empty,
}
use lunaroute.Storage.RollingWriter.{lines_from, keep_filled, filled_lines}

-- No text, or one that ends with a newline.
abbrev pub IsEnded : List ℕ → Type 0
IsEnded bytes = (bytes ≡ []) ⊎ ((before : List ℕ) × (bytes ≡ before ++ 10 ∷ []))

lines_from-append :
    (start xs ys : List ℕ)
    → lines_from start (xs ++ 10 ∷ ys) ≡ lines_from start (xs ++ 10 ∷ []) ++ lines_from [] ys
unfolding lines_from
lines_from-append start [] ys = refl
lines_from-append start (b ∷ xs) ys = elim (Bool-cases (b == 10)) [
  | inl newline ↦ let rest = lines_from-append [] xs ys in rw newline (rw rest refl)
  | inr other ↦ let rest = lines_from-append (start ++ b ∷ []) xs ys in rw other rest
]

keep_filled-append :
    (ls ls' : List (List ℕ)) → keep_filled (ls ++ ls') ≡ keep_filled ls ++ keep_filled ls'
unfolding keep_filled
keep_filled-append [] ls' = refl
keep_filled-append (l ∷ ls) ls' = elim (Bool-cases (is_empty l)) [
  | inl empty ↦ let rest = keep_filled-append ls ls' in rw empty rest
  | inr filled ↦ let rest = keep_filled-append ls ls' in rw filled (ap (λ r. l ∷ r) rest)
]

pub filled_lines-append :
    (a b : List ℕ) → IsEnded a → filled_lines (a ++ b) ≡ filled_lines a ++ filled_lines b
unfolding filled_lines
filled_lines-append a b (inl e) = rw e refl
filled_lines-append a b (inr (xs, e)) =
    rw (e, append_assoc xs (10 ∷ []) b, lines_from-append [] xs b)
      (keep_filled-append (lines_from [] (xs ++ 10 ∷ [])) (lines_from [] b))

pub append-IsEnded : (a b : List ℕ) → IsEnded a → IsEnded b → IsEnded (a ++ b)
append-IsEnded a b (inl e) ended = rw e ended
append-IsEnded a b (inr h) (inl e) = rw (e, append-nil a) (inr h)
append-IsEnded a b (inr h) (inr (ys, e)) =
    inr (a ++ ys, ap (λ c. a ++ c) e ∙ sym (append_assoc a ys (10 ∷ [])))
