-- ===== src/Router/Keeping.antt =====
-- What every selection and every attempt keeps, a whole request keeps.
use lunaroute.Prelude.{
  ℕ, zero, suc, inl, inr, Bool, true, false, String, Option, none, some, List, [], ◌∷◌, ◌++◌,
  Option-cases, Result, Result-cases,
}
use lunaroute.Normalized.{NormalizedRequest, NormalizedResponse, Error}
use lunaroute.Notification.{SwitchReason}
use lunaroute.RouteTable.{RoutingDecision, new_context, find_route}
use lunaroute.Strategy.{RoutingStrategy, round_robin, weighted_round_robin, limits_alternative}
use lunaroute.Router.{
  Sent, Router, is_rate_limit, select_provider_from_strategy, inject, try_provider,
}
use lunaroute.Router.Sending.{
  LoopEnd, answered, gave_up, out_of_fuel, unwrap_rule, alternatives, try_fallbacks,
  try_alternatives, recover_from, attempt, pick, send_by, send,
}
use lunaroute.Router.Sending.{continue_with}
use lunaroute.Router.Rounds.{Round, stops, answers, breaks, repeats, alternatives-Round, round_at}
use lunaroute.Router.Invariant.{Inv, select-Inv, try_provider-Inv}

module _ {F : Type 0} (clock : List Sent → ℕ) (P : Router F → Type 0)
    (selects : (r : Router F) (s : RoutingStrategy) (rule : String) (now : ℕ)
      → P r
      → P (select_provider_from_strategy r s rule now).0)
    (tries : (r : Router F) (p : String) (q : NormalizedRequest) (s : Option RoutingStrategy)
        (rule : Option String)
      → P r
      → P (try_provider clock r p q s rule).0) where
  fallbacks_keep :
      (ps : List String) (q : NormalizedRequest) (original : String) (reason : SwitchReason)
      (s : Option RoutingStrategy) (rule : String) (failed : Error) (r : Router F)
      → P r
      → P (try_fallbacks clock ps q original reason s rule failed r).0
  unfolding try_fallbacks
  fallbacks_keep [] q original reason s rule failed r v = v
  fallbacks_keep (p ∷ ps) q original reason s rule failed r v = elim (Result-cases tried.1) [
    | inl (response, e) ↦ rw (e, try_fallbacks) here
    | inr (x, e) ↦
        rw (e, try_fallbacks) (fallbacks_keep ps q original reason s rule failed tried.0 here)
  ]
    where
      tried : Router F × Result Error NormalizedResponse
      tried = try_provider clock r p (inject r q original p reason) s (some rule)

      here : P tried.0
      here = tries r p (inject r q original p reason) s (some rule) v

  module _ (s : RoutingStrategy) (rule : String) (q : NormalizedRequest) (original : String) where
    round_keeps : (r : Router F) (a : String) → P r → P (round_at clock s rule q original r a).0
    round_keeps r a v = tries _ a _ (some s) (some rule) (selects r s rule (clock r.log) v)

    Round-keeps :
        (fuel : ℕ) (r : Router F) (tried : List String) (end : Router F × LoopEnd)
        → ((r' : Router F) (tried' : List String)
            → P r'
            → P (alternatives clock fuel s rule q original r' tried').0)
        → P r
        → Round clock s rule q original fuel r tried end
        → P end.0
    Round-keeps fuel r tried end again v (stops e) = rw e (selects r s rule (clock r.log) v)
    Round-keeps fuel r tried end again v (answers a response selected replied e) =
        rw e (round_keeps r a v)
    Round-keeps fuel r tried end again v (breaks a selected e) = rw e (round_keeps r a v)
    Round-keeps fuel r tried end again v (repeats a selected new e) =
        rw e (again _ (tried ++ a ∷ []) (round_keeps r a v))

    alternatives_keep :
        (fuel : ℕ) (r : Router F) (tried : List String)
        → P r
        → P (alternatives clock fuel s rule q original r tried).0
    alternatives_keep zero r tried v = unfold alternatives in v
    alternatives_keep (suc fuel) r tried v =
        Round-keeps fuel r tried _ (alternatives_keep fuel) v
          (alternatives-Round clock s rule q original fuel r tried)

  try_alternatives_keeps :
      (limited : Bool) (s : Option RoutingStrategy) (rule : String) (q : NormalizedRequest)
      (original : String) (r : Router F)
      → P r
      → P (try_alternatives clock limited s rule q original r).0
  unfolding try_alternatives
  try_alternatives_keeps true (some (limits_alternative ps qs base)) rule q original r v =
      alternatives_keep (limits_alternative ps qs base) rule q original _ r (original ∷ []) v
  try_alternatives_keeps false (some (limits_alternative ps qs base)) rule q original r v = v
  try_alternatives_keeps limited (some (round_robin ps)) rule q original r v = v
  try_alternatives_keeps limited (some (weighted_round_robin ps)) rule q original r v = v
  try_alternatives_keeps limited none rule q original r v = v

  continue_keeps :
      (fallbacks : List String) (q : NormalizedRequest) (original : String) (reason : SwitchReason)
      (s : Option RoutingStrategy) (rule : String) (failed : Error) (r : Router F) (end : LoopEnd)
      → P r
      → P (continue_with clock fallbacks q original reason s rule failed r end).0
  unfolding continue_with
  continue_keeps fallbacks q original reason s rule failed r (answered response) v = v
  continue_keeps fallbacks q original reason s rule failed r gave_up v =
      fallbacks_keep fallbacks q original reason s rule failed r v
  continue_keeps fallbacks q original reason s rule failed r out_of_fuel v =
      fallbacks_keep fallbacks q original reason s rule failed r v

  attempt_keeps :
      (d : RoutingDecision) (s : Option RoutingStrategy) (rule : String) (q : NormalizedRequest)
      (original : String) (failed : Error) (r : Router F)
      → P r
      → P (attempt clock d s rule q original failed r).0
  unfolding attempt recover_from
  attempt_keeps d s rule q original failed r v = elim (Result-cases tried.1) [
    | inl (response, e) ↦ rw (e, attempt) here
    | inr (x, e) ↦
        rw (e, attempt)
          (continue_keeps d.fallbacks q original _ s rule failed _ _
            (try_alternatives_keeps (is_rate_limit x) s rule q original tried.0 here))
  ]
    where
      tried : Router F × Result Error NormalizedResponse
      tried = try_provider clock r original q s (some rule)

      here : P tried.0
      here = tries r original q s (some rule) v

  pick_keeps :
      (s : Option RoutingStrategy) (primary : Option String) (rule : String) (r : Router F)
      → P r
      → P (pick clock s primary rule r).0
  unfolding pick
  pick_keeps (some s) primary rule r v = selects r s rule (clock r.log) v
  pick_keeps none (some primary) rule r v = v
  pick_keeps none none rule r v = v

  send_by_keeps :
      (debug : List String → String) (d : RoutingDecision) (q : NormalizedRequest) (r : Router F)
      → P r
      → P (send_by clock debug d q r).0
  unfolding send_by
  send_by_keeps debug d q r v = elim (Result-cases choice.1) [
    | inl (p, e) ↦ rw (e, send_by) (attempt_keeps d d.strategy _ q p _ choice.0 here)
    | inr (x, e) ↦ rw (e, send_by) here
  ]
    where
      choice : Router F × Result Error String
      choice = pick clock d.strategy d.primary (unwrap_rule d.matched_rule) r

      here : P choice.0
      here = pick_keeps d.strategy d.primary (unwrap_rule d.matched_rule) r v

  pub send_keeps :
      (compile : String → Option (String → Bool)) (debug : List String → String)
      (q : NormalizedRequest) (r : Router F)
      → P r
      → P (send clock compile debug q r).0
  unfolding send
  send_keeps compile debug q r v =
      elim (Option-cases (find_route compile r.route_table q new_context)) [
        | inl e ↦ rw (e, send) v
        | inr (d, e) ↦ rw (e, send) (send_by_keeps debug d q r v)
      ]

-- Every request that the router serves, with whatever outcome, keeps its invariant: each circuit
-- breaker has the router's configuration and satisfies the breaker's invariant, and each strategy
-- state has one rate-limit entry for a provider and at most 1000 of them.
pub send-Inv :
    {F : Type 0} (clock : List Sent → ℕ) (compile : String → Option (String → Bool))
    (debug : List String → String) (q : NormalizedRequest) (r : Router F)
    → Inv r
    → Inv (send clock compile debug q r).0
send-Inv clock compile debug q r v =
    send_keeps clock Inv select-Inv (try_provider-Inv clock) compile debug q r v
