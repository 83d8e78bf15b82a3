-- ===== src/Strategy/Weighted.antt =====
-- Weighted selection gives each provider its weight.
use lunaroute.Prelude.{
  ℕ, zero, suc, ◌+◌, ◌-◌, ◌%◌, ◌≤◌, ◌<◌, ◌≡◌, refl, ap, ◌∙◌, ◌≢◌, inl, inr, false, String, some,
  List, [], ◌∷◌, ◌++◌, map, arith, length, replicate, Option-cases, Result, ok, get_elem?,
  get_elem?-some, length-append,
}
use lunaroute.Prelude.Words.{u32_max, u32_size, u64_size}
use lunaroute.Strategy.{
  WeightedProvider, weighted_round_robin, StrategyError, total_weight, validate, StrategyState,
  walk, select_provider, select_many,
}
use lunaroute.Strategy.{is_empty, check_weights, first_id}
use native.Mathlib.Nat.{mod-lt}
use lunaroute.Strategy.Cycle.{outcomes, cycle}

-- Each provider as often as its weight says, in the order of the list.
unfoldable pub expand : List WeightedProvider → List String
expand [] = []
expand (p ∷ ps) = replicate p.weight p.id ++ expand ps

length-replicate : {A : Type 0} (n : ℕ) (a : A) → length (replicate n a) ≡ n
length-replicate zero a = refl
length-replicate (suc n) a = ap suc (length-replicate n a)

get_elem?-replicate_left :
    {A : Type 0} (w i : ℕ) (a : A) (r : List A) → i < w → get_elem? (replicate w a ++ r) i ≡ some a
get_elem?-replicate_left zero i a r h = absurd (omega arith)
get_elem?-replicate_left (suc w) zero a r h = refl
get_elem?-replicate_left (suc w) (suc i) a r h = get_elem?-replicate_left w i a r (omega arith)

get_elem?-replicate_right :
    {A : Type 0} (w i : ℕ) (a : A) (r : List A)
    → get_elem? (replicate w a ++ r) (w + i) ≡ get_elem? r i
get_elem?-replicate_right zero i a r = let e : 0 + i ≡ i = omega arith in rw e
get_elem?-replicate_right (suc w) i a r =
    let e : suc w + i ≡ suc (w + i) = omega arith in rw e (get_elem?-replicate_right w i a r)

-- The checked sum is the number of turns, and fits a u32.
total_weight-expand :
    (acc t : ℕ) (ps : List WeightedProvider)
    → acc ≤ u32_max
    → total_weight acc ps ≡ some t
    → (t ≡ acc + length (expand ps)) × (t ≤ u32_max)
unfolding total_weight expand
total_weight-expand acc t [] h e = ground arith
total_weight-expand acc t (p ∷ ps) h e = ground (
  arith,
  total_weight-expand (acc + p.weight) t ps,
  length-append (replicate p.weight p.id) (expand ps),
  length-replicate p.weight p.id,
)

length-expand :
    (p : WeightedProvider) (ps : List WeightedProvider)
    → length (expand (p ∷ ps)) ≡ p.weight + length (expand ps)
unfolding expand
length-expand p ps =
    omega
      (arith, length-append (replicate p.weight p.id) (expand ps), length-replicate p.weight p.id)

first_turns :
    (p : WeightedProvider) (ps : List WeightedProvider) (turn : ℕ)
    → turn < p.weight
    → get_elem? (expand (p ∷ ps)) turn ≡ some p.id
unfolding expand
first_turns p ps turn h = get_elem?-replicate_left p.weight turn p.id (expand ps) h

later_turns :
    (p : WeightedProvider) (ps : List WeightedProvider) (turn : ℕ)
    → p.weight ≤ turn
    → get_elem? (expand (p ∷ ps)) turn ≡ get_elem? (expand ps) (turn - p.weight)
unfolding expand
later_turns p ps turn h =
    let e : turn ≡ p.weight + (turn - p.weight) = omega arith in
    ap (get_elem? (expand (p ∷ ps))) e
    ∙ get_elem?-replicate_right p.weight (turn - p.weight) p.id (expand ps)

no_turn : (turn : ℕ) (x : String) → get_elem? (expand []) turn ≢ some x
unfolding expand
no_turn turn x e = cc

-- The walk finds the provider whose turn it is, and never falls back.
walk-expand :
    (fallback x : String) (ps : List WeightedProvider) (cumulative turn position : ℕ)
    → position ≡ cumulative + turn
    → cumulative + length (expand ps) ≤ u32_max
    → get_elem? (expand ps) turn ≡ some x
    → walk fallback ps cumulative position ≡ x
unfolding walk
walk-expand fallback x [] cumulative turn position q h e = absurd (no_turn turn x e)
walk-expand fallback x (p ∷ ps) cumulative turn position q h e = ground (
  arith,
  length-expand p ps,
  first_turns p ps turn,
  later_turns p ps turn,
  walk-expand fallback x ps (cumulative + p.weight) (turn - p.weight) position,
)

abbrev at_position : List WeightedProvider → ℕ → Result StrategyError String
at_position ps c = ok (walk (first_id ps) ps 0 (c % length (expand ps) % u32_size))

-- A valid list has a total weight, which is the number of turns.
valid-total :
    (ps : List WeightedProvider)
    → validate (weighted_round_robin ps) ≡ ok tt
    → (check_weights (total_weight 0 ps) ≡ ok (length (expand ps)))
      × (is_empty ps ≡ false)
      × (0 < length (expand ps))
      × (length (expand ps) ≤ u32_max)
unfolding validate
valid-total ps h = elim (Option-cases (total_weight 0 ps)) [
  | inl e ↦ ground arith
  | inr (t, e) ↦ ground (arith, total_weight-expand 0 t ps)
]

selects :
    (ps : List WeightedProvider) (now c : ℕ) (st : StrategyState)
    → validate (weighted_round_robin ps) ≡ ok tt
    → select_provider st (weighted_round_robin ps) now ≡ (
      record st { current_position = (st.current_position + 1) % u64_size },
      at_position ps st.current_position,
    )
unfolding select_provider
selects ps now c st h = ground (arith, valid-total ps h)

reads_turn :
    (ps : List WeightedProvider) (c : ℕ) (x : String)
    → 0 < length (expand ps)
    → length (expand ps) ≤ u32_max
    → get_elem? (expand ps) (c % length (expand ps)) ≡ some x
    → at_position ps c ≡ ok x
reads_turn ps c x pos fits e =
    ap ok (walk-expand (first_id ps) x ps 0 (c % n) (c % n % u32_size) same (omega arith) e)
  where
    n : ℕ
    n = length (expand ps)

    same : c % n % u32_size ≡ 0 + c % n
    same = let below : c % n < n = mod-lt c pos in omega arith

-- Weighted selection on a valid configuration never falls back: with W the total weight, a call at
-- position c succeeds and selects the provider that holds turn c modulo W, where each provider
-- holds as many consecutive turns as its weight.
pub select_weighted_turn :
    (ps : List WeightedProvider) (st : StrategyState) (now : ℕ)
    → validate (weighted_round_robin ps) ≡ ok tt
    → (x : String) × (get_elem? (expand ps) (st.current_position % length (expand ps)) ≡ some x)
      × ((select_provider st (weighted_round_robin ps) now).1 ≡ ok x)
select_weighted_turn ps st now h =
    let v = valid-total ps h in
    let (x, e) =
      get_elem?-some (expand ps) (st.current_position % length (expand ps))
        (mod-lt st.current_position v.2) in
    (x, e, ap (λ r. r.1) (selects ps now 0 st h) ∙ reads_turn ps st.current_position x v.2 v.3 e)

select_many-outcomes :
    (ps : List WeightedProvider) (now k : ℕ) (st : StrategyState)
    → validate (weighted_round_robin ps) ≡ ok tt
    → select_many k st (weighted_round_robin ps) now
      ≡ outcomes (at_position ps) k st.current_position
unfolding select_many outcomes
select_many-outcomes ps now zero st h = refl
select_many-outcomes ps now (suc k) st h = rw (selects ps now 0 st h) (
    ap (◌∷◌ (at_position ps st.current_position)) (
      select_many-outcomes ps now k
        (record st { current_position = (st.current_position + 1) % u64_size }) h))

-- Weighted selection is proportional, in blocks: from a position that is a multiple of the total
-- weight and does not wrap within the cycle, a cycle of calls selects each provider exactly as
-- often as its weight, all turns of one provider before those of the next.
pub weighted_proportional :
    (ps : List WeightedProvider) (st : StrategyState) (now : ℕ)
    → validate (weighted_round_robin ps) ≡ ok tt
    → st.current_position % length (expand ps) ≡ 0
    → st.current_position + length (expand ps) ≤ u64_size
    → select_many (length (expand ps)) st (weighted_round_robin ps) now ≡ map ok (expand ps)
weighted_proportional ps st now h m w =
    let v = valid-total ps h in
    select_many-outcomes ps now (length (expand ps)) st h
    ∙ cycle (at_position ps) ok (expand ps) (λ c x e. reads_turn ps c x v.2 v.3 e)
        st.current_position m w
