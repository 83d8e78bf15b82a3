-- ===== src/Strategy/Cycle.antt =====
-- A counter that walks round a list: n calls from a multiple of n give the list once.
use lunaroute.Prelude.{
  ℕ, zero, suc, ◌+◌, ◌%◌, ◌≤◌, ◌<◌, ◌≡◌, refl, sym, ap, ap₂, subst, ◌∙◌, some, List, [], ◌∷◌, ◌++◌,
  map, arith, length, get_elem?, length-append,
}
use lunaroute.Prelude.Words.{u64_size}
use mathlib.Core.List.{append_assoc}

get_elem?-middle :
    {A : Type 0} (pre post : List A) (x : A) → get_elem? (pre ++ x ∷ post) (length pre) ≡ some x
get_elem?-middle [] post x = refl
get_elem?-middle (y ∷ pre) post x = get_elem?-middle pre post x

next_mod : (c n k : ℕ) → c % n ≡ k → k + 1 < n → (c + 1) % n ≡ k + 1
next_mod c n k e h = grind arith

last_mod : (c n k : ℕ) → c % n ≡ k → k + 1 ≡ n → (c + 1) % n ≡ 0
last_mod c n k e h = grind arith

-- The results of `k` calls, the counter wrapping as a usize.
unfoldable pub outcomes : {R : Type 0} → (ℕ → R) → ℕ → ℕ → List R
outcomes f zero c = []
outcomes f (suc k) c = f c ∷ outcomes f k ((c + 1) % u64_size)

module _ {A R : Type 0} (f : ℕ → R) (g : A → R) (xs : List A)
    (reads : (c : ℕ) (x : A) → get_elem? xs (c % length xs) ≡ some x → f c ≡ g x) where
  -- From the element after `pre`, one call for each element of `post`.
  segment :
      (pre post : List A) (c : ℕ)
      → xs ≡ pre ++ post
      → c % length xs ≡ length pre
      → c + length post ≤ u64_size
      → outcomes f (length post) c ≡ map g post
  unfolding outcomes
  segment pre [] c e m h = refl
  segment pre (x ∷ []) c e m h = rw (reads c x (rw (m, e) (get_elem?-middle pre [] x)))
  segment pre (x ∷ y ∷ post) c e m h =
      ap₂ ◌∷◌
        (reads c x (
          rw m (
            subst (λ l. get_elem? l (length pre) ≡ some x) (sym e)
              (get_elem?-middle pre (y ∷ post) x))))
        (rw small (
          segment (pre ++ x ∷ []) (y ∷ post) (c + 1)
            (e ∙ sym (append_assoc pre (x ∷ []) (y ∷ post)))
            (next_mod c (length xs) (length pre) m within ∙ sym longer) (omega arith)))
    where
      small : (c + 1) % u64_size ≡ c + 1
      small = omega arith

      longer : length (pre ++ x ∷ []) ≡ length pre + 1
      longer = omega (arith, length-append pre (x ∷ []))

      within : length pre + 1 < length xs
      within = omega (arith, ap length e, length-append pre (x ∷ y ∷ post))

  -- From the start of the list, one call for each of its elements.
  pub cycle :
      (c : ℕ) → c % length xs ≡ 0 → c + length xs ≤ u64_size → outcomes f (length xs) c ≡ map g xs
  cycle c m h = segment [] xs c refl m h
