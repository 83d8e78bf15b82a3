-- ===== src/Strategy/RoundRobin.antt =====
-- Round-robin selection goes through the providers in order.
use lunaroute.Prelude.{
  ℕ, zero, suc, ◌+◌, ◌%◌, ◌≤◌, ◌≡◌, refl, ap, ◌∙◌, ◌≢◌, String, some, List, [], ◌∷◌, map, arith,
  length, Result, ok, get_elem?,
}
use lunaroute.Prelude.Words.{u64_size}
use lunaroute.Strategy.{round_robin, StrategyError, StrategyState, select_provider, select_many}
use lunaroute.Strategy.{index}
use lunaroute.Strategy.Cycle.{outcomes, cycle}

index-get_elem? : (ps : List String) (i : ℕ) (p : String) → get_elem? ps i ≡ some p → index ps i ≡ p
unfolding index
index-get_elem? [] i p h = cc
index-get_elem? (q ∷ ps) zero p h = ground arith
index-get_elem? (q ∷ ps) (suc i) p h = index-get_elem? ps i p h

abbrev at_counter : List String → ℕ → Result StrategyError String
at_counter ps c = ok (index ps (c % length ps))

select_many-outcomes :
    (q : String) (ps : List String) (now k : ℕ) (st : StrategyState)
    → select_many k st (round_robin (q ∷ ps)) now
      ≡ outcomes (at_counter (q ∷ ps)) k st.round_robin_counter
unfolding select_many outcomes select_provider
select_many-outcomes q ps now zero st = refl
select_many-outcomes q ps now (suc k) st = ap (◌∷◌ (at_counter (q ∷ ps) st.round_robin_counter)) (
    select_many-outcomes q ps now k
      (record st { round_robin_counter = (st.round_robin_counter + 1) % u64_size }))

-- Round-robin is fair: when the counter stands at a multiple of the number of providers, and does
-- not wrap within the round, the next round of calls selects each provider once, in order.
pub round_robin_fair :
    (ps : List String) (st : StrategyState) (now : ℕ)
    → ps ≢ []
    → st.round_robin_counter % length ps ≡ 0
    → st.round_robin_counter + length ps ≤ u64_size
    → select_many (length ps) st (round_robin ps) now ≡ map ok ps
round_robin_fair [] st now h m w = absurd (h refl)
round_robin_fair (q ∷ ps) st now h m w =
    select_many-outcomes q ps now (length (q ∷ ps)) st
    ∙ cycle (at_counter (q ∷ ps)) ok (q ∷ ps) (λ c x e. ap ok (index-get_elem? (q ∷ ps) _ x e))
        st.round_robin_counter m w
