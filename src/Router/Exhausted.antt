-- ===== src/Router/Exhausted.antt =====
-- A strategy that finds no provider ends the request.
use Prim.Native.String.{◌++◌ as str_append}
use lunaroute.Prelude.{ℕ, ◌≡◌, refl, ap, Bool, String, Option, some, List, ◌++◌, All, err, map_err}
use lunaroute.Prelude.Maps.{IsUnique}
use lunaroute.Normalized.{NormalizedRequest, provider_error}
use lunaroute.RouteTable.{RoutingDecision, new_context, find_route}
use lunaroute.Strategy.{
  RoutingStrategy, limits_alternative, StrategyError, all_providers_rate_limited, select_provider,
}
use lunaroute.Strategy.Limits.{IsLimited, select_limits-exhausted}
use lunaroute.Router.{Sent, Router, get_strategy_state, select_provider_from_strategy, show_error}
use lunaroute.Router.Sending.{unwrap_rule, pick, send_by, send}
use lunaroute.Router.Answers.{pick_keeps}

module _ {F : Type 0} (clock : List Sent → ℕ) where
  failed_pick :
      (s : RoutingStrategy) (primary : Option String) (rule : String) (r : Router F)
      (e : StrategyError)
      → (select_provider (get_strategy_state r rule) s (clock r.log)).1 ≡ err e
      → (pick clock (some s) primary rule r).1
        ≡ err (provider_error (str_append "Strategy selection failed: " (show_error e)))
  unfolding pick select_provider_from_strategy
  failed_pick s primary rule r e h = ap (map_err _) h

  -- When the route of a request has the limits-alternative strategy and all of its primary and
  -- alternative providers are rate-limited at the time of the request, in a map of limits that names
  -- each provider once, the request fails with the error of the strategy, without being sent to
  -- anyone: the fallbacks of the route are not tried.
  pub no_selection_no_fallbacks :
      (compile : String → Option (String → Bool)) (debug : List String → String)
      (q : NormalizedRequest) (r : Router F) (d : RoutingDecision)
      (primary alternative : List String) (base : ℕ)
      → find_route compile r.route_table q new_context ≡ some d
      → d.strategy ≡ some (limits_alternative primary alternative base)
      → IsUnique (get_strategy_state r (unwrap_rule d.matched_rule)).rate_limit_states
      → All
          (IsLimited (get_strategy_state r (unwrap_rule d.matched_rule)) (clock r.log))
          (primary ++ alternative)
      → let (r', result) = send clock compile debug q r in
        (r'.log ≡ r.log)
        × (result
            ≡ err (
                provider_error
                  "Strategy selection failed: All providers are currently rate-limited"))
  unfolding send send_by show_error
  no_selection_no_fallbacks compile debug q r d primary alternative base route strategy unique
        limited =
      let failed =
        failed_pick (limits_alternative primary alternative base) d.primary
          (unwrap_rule d.matched_rule) r all_providers_rate_limited
          (select_limits-exhausted (get_strategy_state r (unwrap_rule d.matched_rule)) (clock r.log)
            base primary alternative unique limited) in
      rw (route, send, strategy, failed, send_by)
        ((pick_keeps clock debug d.strategy d.primary (unwrap_rule d.matched_rule) r).0, refl)
