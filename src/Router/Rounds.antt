-- ===== src/Router/Rounds.antt =====
-- One round of the loop over the alternatives, and one of the loop over the fallbacks, by cases.
use lunaroute.Prelude.{
  ℕ, suc, ◌≡◌, inl, inr, false, String, some, List, [], ◌∷◌, ◌++◌, Bool-cases, Result, ok,
  Result-cases,
}
use lunaroute.Normalized.{NormalizedRequest, NormalizedResponse, Error}
use lunaroute.Notification.{rate_limit}
use lunaroute.Strategy.{RoutingStrategy}
use lunaroute.Router.{
  Sent, Router, is_rate_limit, select_provider_from_strategy, inject, try_provider,
}
use lunaroute.Router.Sending.{contains, LoopEnd, answered, gave_up, alternatives}

module _ {F : Type 0} (clock : List Sent → ℕ) (s : RoutingStrategy) (rule : String)
    (q : NormalizedRequest) (original : String) where
  -- The router once the round has selected.
  abbrev pub picked : Router F → Router F
  picked r = (select_provider_from_strategy r s rule (clock r.log)).0

  -- The attempt at the selected alternative.
  abbrev pub round_at : Router F → String → Router F × Result Error NormalizedResponse
  round_at r a =
      try_provider clock (picked r) a (inject (picked r) q original a rate_limit) (some s)
        (some rule)

  -- How the loop goes on from a round.
  pub data Round (fuel : ℕ) (r : Router F) (tried : List String) (end : Router F × LoopEnd)
      : Type 0 where
    stops : end ≡ (picked r, gave_up) → Round fuel r tried end
    answers :
        (a : String) (response : NormalizedResponse)
        → (select_provider_from_strategy r s rule (clock r.log)).1 ≡ ok a
        → (round_at r a).1 ≡ ok response
        → end ≡ ((round_at r a).0, answered response)
        → Round fuel r tried end
    breaks :
        (a : String)
        → (select_provider_from_strategy r s rule (clock r.log)).1 ≡ ok a
        → end ≡ ((round_at r a).0, gave_up)
        → Round fuel r tried end
    repeats :
        (a : String)
        → (select_provider_from_strategy r s rule (clock r.log)).1 ≡ ok a
        → contains tried a ≡ false
        → end ≡ alternatives clock fuel s rule q original (round_at r a).0 (tried ++ a ∷ [])
        → Round fuel r tried end

  pub alternatives-Round :
      (fuel : ℕ) (r : Router F) (tried : List String)
      → Round fuel r tried (alternatives clock (suc fuel) s rule q original r tried)
  unfolding alternatives
  alternatives-Round fuel r tried =
      elim (Result-cases (select_provider_from_strategy r s rule (clock r.log)).1) [
        | inr (e, failed) ↦ stops (rw (failed, alternatives))
        | inl (a, selected) ↦ elim (Bool-cases (contains tried a)) [
          | inl again ↦ stops (rw (selected, again, alternatives))
          | inr new ↦ elim (Result-cases (round_at r a).1) [
            | inl (response, e) ↦
                answers a response selected e (rw (selected, new, e, alternatives))
            | inr (x, e) ↦ elim (Bool-cases (is_rate_limit x)) [
              | inl limited ↦ repeats a selected new (rw (selected, new, e, limited, alternatives))
              | inr other ↦ breaks a selected (rw (selected, new, e, other, alternatives))
            ]
          ]
        ]
      ]
