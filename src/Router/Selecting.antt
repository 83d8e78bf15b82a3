-- ===== src/Router/Selecting.antt =====
-- A strategy selects one of its own providers.
use lunaroute.Prelude.{
  ℕ, zero, suc, ◌%◌, ◌<◌, ◌≡◌, refl, ◌⊎◌, inl, inr, true, String, List, [], ◌∷◌, map, arith, length,
  ok, Result-cases, str_eq_iff,
}
use lunaroute.Prelude.Words.{u32_max, u32_size, saturating_add}
use lunaroute.Strategy.{
  RoutingStrategy, round_robin, weighted_round_robin, limits_alternative, provider_ids,
  StrategyState, select_provider,
}
use lunaroute.Router.{Router, get_strategy_state, select_provider_from_strategy}
use lunaroute.Router.Sending.{contains}
use native.Mathlib.Nat.{mod-lt}
use lunaroute.Strategy.{WeightedProvider, walk, index, first_id, total_weight, check_weights}
use lunaroute.Router.Attempt.{select_limits-contains, map_err-ok}

index-contains : (ps : List String) (i : ℕ) → i < length ps → contains ps (index ps i) ≡ true
unfolding contains index
index-contains [] i h = absurd (omega arith)
index-contains (p ∷ ps) zero h = ground (arith, str_eq_iff p p)
index-contains (p ∷ ps) (suc i) h = ground (arith, index-contains ps i)

walk-contains :
    (fallback : String) (ps : List WeightedProvider) (cumulative position : ℕ)
    → (contains (map (λ p. p.id) ps) (walk fallback ps cumulative position) ≡ true)
      ⊎ (walk fallback ps cumulative position ≡ fallback)
unfolding contains walk
walk-contains fallback [] cumulative position = inr refl
walk-contains fallback (p ∷ ps) cumulative position = ground (
  arith,
  str_eq_iff p.id p.id,
  walk-contains fallback ps (saturating_add u32_max cumulative p.weight) position,
)

walk-first :
    (p : WeightedProvider) (ps : List WeightedProvider) (cumulative position : ℕ)
    → contains (map (λ p'. p'.id) (p ∷ ps)) (walk (first_id (p ∷ ps)) (p ∷ ps) cumulative position)
      ≡ true
unfolding contains first_id
walk-first p ps cumulative position =
    ground (arith, str_eq_iff p.id p.id, walk-contains p.id (p ∷ ps) cumulative position)

-- Whatever a strategy selects is one of the providers that it lists.
pub select_provider-contains :
    (st : StrategyState) (strategy : RoutingStrategy) (now : ℕ) (p : String)
    → (select_provider st strategy now).1 ≡ ok p
    → contains (provider_ids strategy) p ≡ true
unfolding select_provider provider_ids
select_provider-contains st (round_robin []) now p h = cc
select_provider-contains st (round_robin (q ∷ qs)) now p h = ground (
  arith,
  index-contains (q ∷ qs) (st.round_robin_counter % length (q ∷ qs)),
  λ (k : 0 < length (q ∷ qs)). mod-lt st.round_robin_counter k,
)
select_provider-contains st (weighted_round_robin []) now p h = cc
select_provider-contains st (weighted_round_robin (q ∷ qs)) now p h =
    elim (Result-cases (check_weights (total_weight 0 (q ∷ qs)))) [
      | inl (total, e) ↦ ground (arith, walk-first q qs 0 (st.current_position % total % u32_size))
      | inr (x, e) ↦ ground arith
    ]
select_provider-contains st (limits_alternative primary alternative base) now p h =
    unfold select_provider in select_limits-contains st primary alternative base now p h

module _ {F : Type 0} where
  pub select_from_strategy-contains :
      (r : Router F) (strategy : RoutingStrategy) (rule : String) (now : ℕ) (p : String)
      → (select_provider_from_strategy r strategy rule now).1 ≡ ok p
      → contains (provider_ids strategy) p ≡ true
  unfolding select_provider_from_strategy
  select_from_strategy-contains r strategy rule now p h =
      select_provider-contains (get_strategy_state r rule) strategy now p (map_err-ok _ _ p h)
