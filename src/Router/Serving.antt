-- ===== src/Router/Serving.antt =====
-- A request is served by the candidates of its route, and answered by the last one that is asked.
use lunaroute.Prelude.{
  ℕ, zero, suc, ◌≡◌, refl, ◌≢◌, inl, inr, Bool, true, false, String, Option, none, some, List, [],
  ◌∷◌, ◌++◌, All, Result, ok, Result-cases,
}
use lunaroute.Normalized.{NormalizedRequest, NormalizedResponse, Error}
use lunaroute.Notification.{SwitchReason, rate_limit}
use lunaroute.RouteTable.{RoutingDecision}
use lunaroute.Strategy.{
  RoutingStrategy, round_robin, weighted_round_robin, limits_alternative, provider_ids,
}
use lunaroute.Router.{
  Sent, Router, is_rate_limit, select_provider_from_strategy, inject, try_provider,
}
use lunaroute.Router.Sending.{
  contains, LoopEnd, answered, gave_up, out_of_fuel, alternatives, try_fallbacks, try_alternatives,
  switch_reason, recover_from, attempt,
}
use lunaroute.RouteTable.{strategy_ids}
use lunaroute.Router.Sending.{continue_with}
use lunaroute.Router.Attempt.{try_provider-Tried, select_keeps}
use lunaroute.Router.Rounds.{
  Round, stops, answers, breaks, repeats, alternatives-Round, picked, round_at,
}
use lunaroute.Router.Selecting.{select_from_strategy-contains}
use lunaroute.Router.Contacts.{
  Served, answer_of, end_answer, quiet, then-Served, Tried-Served, inject-IsFrom,
}

module _ {F : Type 0} (clock : List Sent → ℕ) (candidates : List String)
    (q : NormalizedRequest) where
  -- The loop over the fallbacks.
  fallbacks-Served :
      (ps : List String) (original : String) (reason : SwitchReason)
      (strategy : Option RoutingStrategy) (rule : String) (failed : Error) (r : Router F)
      → All (λ p. contains candidates p ≡ true) ps
      → let (r', result) = try_fallbacks clock ps q original reason strategy rule failed r in
        Served candidates q r r' (answer_of result)
  unfolding try_fallbacks answer_of
  fallbacks-Served [] original reason strategy rule failed r a = quiet candidates q r r refl refl
  fallbacks-Served (p ∷ ps) original reason strategy rule failed r a = elim (Result-cases tried.1) [
    | inl (response, e) ↦ rw (e, try_fallbacks) (rw e at here)
    | inr (x, e) ↦
        rw (e, try_fallbacks)
          (then-Served candidates q r tried.0 _ _ _ here
            (fallbacks-Served ps original reason strategy rule failed tried.0 a.1))
  ]
    where
      tried : Router F × Result Error NormalizedResponse
      tried = try_provider clock r p (inject r q original p reason) strategy (some rule)

      here : Served candidates q r tried.0 (answer_of tried.1)
      here =
          Tried-Served candidates q r tried.0 p (inject r q original p reason) tried.1 a.0
            (inject-IsFrom candidates q r original p reason)
            (try_provider-Tried clock r p (inject r q original p reason) strategy (some rule))

  module _ (s : RoutingStrategy) (rule original : String)
      (listed : (p : String)
        → contains (provider_ids s) p ≡ true
        → contains candidates p ≡ true) where
    round-Served :
        (r : Router F) (a : String)
        → (select_provider_from_strategy r s rule (clock r.log)).1 ≡ ok a
        → Served candidates q r
            (round_at clock s rule q original r a).0
            (answer_of (round_at clock s rule q original r a).1)
    round-Served r a selected =
        then-Served candidates q r r₁ _ none _ (quiet candidates q r r₁ kept.0 kept.1) (
          Tried-Served candidates q r₁ _ a (inject r₁ q original a rate_limit) _
            (listed a (select_from_strategy-contains r s rule (clock r.log) a selected))
            (inject-IsFrom candidates q r₁ original a rate_limit)
            (try_provider-Tried clock r₁ a (inject r₁ q original a rate_limit) (some s)
              (some rule)))
      where
        r₁ : Router F
        r₁ = picked clock s rule q original r

        kept : (r₁.log ≡ r.log) × (r₁.providers ≡ r.providers)
        kept = select_keeps r s rule (clock r.log)

    unanswered :
        (r r' : Router F) (o : Option NormalizedResponse)
        → Served candidates q r r' o
        → Served candidates q r r' none
    unanswered r r' o v = record {
      sent = v.sent;
      log_grows = v.log_grows;
      allowed = v.allowed;
      same_providers = v.same_providers;
      last_reply = λ response e. absurd (none_is_none response e);
    }
      where
        none_is_none : (response : NormalizedResponse) → none ≢ some response
        none_is_none response e = cc

    Round-Served :
        (fuel : ℕ) (r : Router F) (tried : List String) (end : Router F × LoopEnd)
        → ((r' : Router F) (a : String)
            → let e = alternatives clock fuel s rule q original r' (tried ++ a ∷ []) in
              Served candidates q r' e.0 (end_answer e.1))
        → Round clock s rule q original fuel r tried end
        → Served candidates q r end.0 (end_answer end.1)
    unfolding end_answer
    Round-Served fuel r tried end again (stops e) =
        let kept = select_keeps r s rule (clock r.log) in
        rw e (quiet candidates q r (picked clock s rule q original r) kept.0 kept.1)
    Round-Served fuel r tried end again (answers a response selected replied e) =
        rw e (unfold answer_of in rw replied at (round-Served r a selected))
    Round-Served fuel r tried end again (breaks a selected e) =
        rw e (unanswered r _ _ (round-Served r a selected))
    Round-Served fuel r tried end again (repeats a selected new e) = rw e (
        then-Served candidates q r (round_at clock s rule q original r a).0 _ _ _
          (round-Served r a selected) (again _ a))

    alternatives-Served :
        (fuel : ℕ) (r : Router F) (tried : List String)
        → let end = alternatives clock fuel s rule q original r tried in
          Served candidates q r end.0 (end_answer end.1)
    alternatives-Served zero r tried =
        unfold alternatives end_answer in quiet candidates q r r refl refl
    alternatives-Served (suc fuel) r tried =
        Round-Served fuel r tried _ (λ r' a. alternatives-Served fuel r' (tried ++ a ∷ []))
          (alternatives-Round clock s rule q original fuel r tried)

  after_loop :
      (d : RoutingDecision) (strategy : Option RoutingStrategy) (reason : SwitchReason)
      (rule original : String) (failed : Error) (r r' : Router F) (end : LoopEnd)
      → All (λ p. contains candidates p ≡ true) d.fallbacks
      → Served candidates q r r' (end_answer end)
      → let out = continue_with clock d.fallbacks q original reason strategy rule failed r' end in
        Served candidates q r out.0 (answer_of out.1)
  unfolding continue_with end_answer answer_of
  after_loop d strategy reason rule original failed r r' (answered response) a v = v
  after_loop d strategy reason rule original failed r r' gave_up a v =
      then-Served candidates q r r' _ none _ v
        (fallbacks-Served d.fallbacks original reason strategy rule failed r' a)
  after_loop d strategy reason rule original failed r r' out_of_fuel a v =
      then-Served candidates q r r' _ none _ v
        (fallbacks-Served d.fallbacks original reason strategy rule failed r' a)

  try_alternatives-Served :
      (limited : Bool) (strategy : Option RoutingStrategy) (rule original : String) (r : Router F)
      → ((p : String) → contains (strategy_ids strategy) p ≡ true → contains candidates p ≡ true)
      → let end = try_alternatives clock limited strategy rule q original r in
        Served candidates q r end.0 (end_answer end.1)
  unfolding try_alternatives end_answer strategy_ids
  try_alternatives-Served true (some (limits_alternative ps qs base)) rule original r listed =
      alternatives-Served (limits_alternative ps qs base) rule original listed _ r (original ∷ [])
  try_alternatives-Served false (some (limits_alternative ps qs base)) rule original r listed =
      quiet candidates q r r refl refl
  try_alternatives-Served limited (some (round_robin ps)) rule original r listed =
      quiet candidates q r r refl refl
  try_alternatives-Served limited (some (weighted_round_robin ps)) rule original r listed =
      quiet candidates q r r refl refl
  try_alternatives-Served limited none rule original r listed = quiet candidates q r r refl refl

  pub attempt-Served :
      (d : RoutingDecision) (strategy : Option RoutingStrategy) (rule original : String)
      (failed : Error) (r : Router F)
      → contains candidates original ≡ true
      → ((p : String) → contains (strategy_ids strategy) p ≡ true → contains candidates p ≡ true)
      → All (λ p. contains candidates p ≡ true) d.fallbacks
      → let out = attempt clock d strategy rule q original failed r in
        Served candidates q r out.0 (answer_of out.1)
  unfolding attempt recover_from
  attempt-Served d strategy rule original failed r c listed a = elim (Result-cases tried.1) [
    | inl (response, e) ↦ rw (e, attempt) (unfold answer_of in rw e at here)
    | inr (x, e) ↦
        rw (e, attempt)
          (then-Served candidates q r tried.0 _ (answer_of tried.1) _ here (
            after_loop d strategy (switch_reason (is_rate_limit x)) rule original failed tried.0 _ _
              a (try_alternatives-Served (is_rate_limit x) strategy rule original tried.0 listed)))
  ]
    where
      tried : Router F × Result Error NormalizedResponse
      tried = try_provider clock r original q strategy (some rule)

      here : Served candidates q r tried.0 (answer_of tried.1)
      here =
          Tried-Served candidates q r tried.0 original q tried.1 c (inl refl)
            (try_provider-Tried clock r original q strategy (some rule))
