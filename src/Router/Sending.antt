-- ===== src/Router/Sending.antt =====
-- crates/lunaroute-routing/src/provider_router.rs: the `Provider` implementation of the router. A
-- request goes to the provider that the route selects, after a rate limit to the alternatives of
-- the strategy, and then to the fallbacks.
use lunaroute.Prelude.{
  ℕ, zero, suc, Bool, true, false, ◌||◌, String, Option, none, some, List, [], ◌∷◌, ◌++◌,
  if◌then◌else◌, length, Result, ok, err, str_eq,
}
use Prim.Native.String.{◌++◌ as str_append}
use lunaroute.Normalized.{NormalizedRequest, NormalizedResponse, Error, provider_error}
use lunaroute.Notification.{SwitchReason, rate_limit, service_issue}
use lunaroute.RouteTable.{RoutingDecision, new_context, find_route}
use lunaroute.Strategy.{RoutingStrategy, limits_alternative, provider_ids}
use lunaroute.Router.{
  Sent, Router, is_rate_limit, select_provider_from_strategy, inject, try_provider,
}

-- `vec.contains(&id)`.
unfoldable pub contains : List String → String → Bool
contains [] p = false
contains (q ∷ qs) p = str_eq q p || contains qs p

-- How the loop over the alternatives ends.
pub data LoopEnd : Type 0 where
  answered : NormalizedResponse → LoopEnd
  gave_up out_of_fuel : LoopEnd

unfoldable pub unwrap_rule : Option String → String
unwrap_rule none = "unknown"
unwrap_rule (some rule) = rule

unfoldable pub switch_reason : Bool → SwitchReason
switch_reason limited = if limited then rate_limit else service_issue

unfoldable pub no_route : String → Error
no_route model = provider_error (str_append "No route found for model '" (str_append model "'"))

unfoldable pub all_failed : String → String → String → Error
all_failed model primary fallbacks = provider_error (
    str_append "All providers failed for model '" (
      str_append model (
        str_append "' (primary: "
          (str_append primary (str_append ", fallbacks: " (str_append fallbacks ")"))))))

-- `clock` is the time once the given requests have been sent.
module _ {F : Type 0} (clock : List Sent → ℕ) where
  -- The `while let` loop over the alternatives: one more unit of fuel than there are providers
  -- suffices, since each round adds a provider to `tried`.
  unfoldable pub alternatives :
      ℕ
      → RoutingStrategy
      → String
      → NormalizedRequest
      → String
      → Router F
      → List String
      → Router F × LoopEnd
  alternatives zero strategy rule q original r tried = (r, out_of_fuel)
  alternatives (suc fuel) strategy rule q original r tried =
      let (r', selected) = select_provider_from_strategy r strategy rule (clock r.log) in
      elim selected [
        | err e ↦ (r', gave_up)
        | ok alternative ↦ elim (contains tried alternative) [
          | true ↦ (r', gave_up)
          | false ↦
              let q' = inject r' q original alternative rate_limit in
              let (r'', result) =
                try_provider clock r' alternative q' (some strategy) (some rule) in
              elim result [
                | ok response ↦ (r'', answered response)
                | err e ↦ elim (is_rate_limit e) [
                  | true ↦
                      alternatives fuel strategy rule q original r'' (tried ++ alternative ∷ [])
                  | false ↦ (r'', gave_up)
                ]
              ]
        ]
      ]

  -- The loop over the fallbacks.
  unfoldable pub try_fallbacks :
      List String
      → NormalizedRequest
      → String
      → SwitchReason
      → Option RoutingStrategy
      → String
      → Error
      → Router F
      → Router F × Result Error NormalizedResponse
  try_fallbacks [] q original reason strategy rule failed r = (r, err failed)
  try_fallbacks (p ∷ ps) q original reason strategy rule failed r =
      let q' = inject r q original p reason in
      let (r', result) = try_provider clock r p q' strategy (some rule) in
      elim result [
        | ok response ↦ (r', ok response)
        | err e ↦ try_fallbacks ps q original reason strategy rule failed r'
      ]

  -- The alternatives, which are tried only after a rate limit under the strategy that has them.
  unfoldable pub try_alternatives :
      Bool
      → Option RoutingStrategy
      → String
      → NormalizedRequest
      → String
      → Router F
      → Router F × LoopEnd
  try_alternatives limited (some (limits_alternative ps qs base)) rule q original r =
      let s = limits_alternative ps qs base in
      if limited
      then alternatives (suc (length (provider_ids s))) s rule q original r (original ∷ [])
      else (r, gave_up)
  try_alternatives limited _ rule q original r = (r, gave_up)

  -- What follows the loop over the alternatives.
  unfoldable pub continue_with :
      List String
      → NormalizedRequest
      → String
      → SwitchReason
      → Option RoutingStrategy
      → String
      → Error
      → Router F
      → LoopEnd
      → Router F × Result Error NormalizedResponse
  continue_with fallbacks q original reason strategy rule failed r (answered response) =
      (r, ok response)
  continue_with fallbacks q original reason strategy rule failed r _ =
      try_fallbacks fallbacks q original reason strategy rule failed r

  -- After the primary has failed with an error.
  unfoldable pub recover_from :
      Bool
      → RoutingDecision
      → Option RoutingStrategy
      → String
      → NormalizedRequest
      → String
      → Error
      → Router F
      → Router F × Result Error NormalizedResponse
  recover_from limited d strategy rule q original failed r =
      let (r', end) = try_alternatives limited strategy rule q original r in
      continue_with d.fallbacks q original (switch_reason limited) strategy rule failed r' end

  -- The primary, and then what is left.
  unfoldable pub attempt :
      RoutingDecision
      → Option RoutingStrategy
      → String
      → NormalizedRequest
      → String
      → Error
      → Router F
      → Router F × Result Error NormalizedResponse
  attempt d strategy rule q original failed r =
      let (r', result) = try_provider clock r original q strategy (some rule) in
      elim result [
        | ok response ↦ (r', ok response)
        | err e ↦ recover_from (is_rate_limit e) d strategy rule q original failed r'
      ]

  -- The provider that the decision names, or that its strategy selects.
  unfoldable pub pick :
      Option RoutingStrategy → Option String → String → Router F → Router F × Result Error String
  pick (some strategy) primary rule r = select_provider_from_strategy r strategy rule (clock r.log)
  pick none (some primary) rule r = (r, ok primary)
  pick none none rule r = (r, err (provider_error "No primary provider or strategy specified"))

  -- `send`, once the route is found. `debug` is the debug text of a list, as Rust prints it.
  unfoldable pub send_by :
      (List String → String)
      → RoutingDecision
      → NormalizedRequest
      → Router F
      → Router F × Result Error NormalizedResponse
  unfolding pick unwrap_rule
  send_by debug d q r =
      let rule = unwrap_rule d.matched_rule in
      let (r', picked) = pick d.strategy d.primary rule r in
      elim picked [
        | err e ↦ (r', err e)
        | ok p ↦ attempt d d.strategy rule q p (all_failed q.model p (debug d.fallbacks)) r'
      ]

  -- `Provider::send` of the router. `compile` is the regex engine.
  unfoldable pub send :
      (String → Option (String → Bool))
      → (List String → String)
      → NormalizedRequest
      → Router F
      → Router F × Result Error NormalizedResponse
  unfolding no_route
  send compile debug q r = elim (find_route compile r.route_table q new_context) [
    | none ↦ (r, err (no_route q.model))
    | some d ↦ send_by debug d q r
  ]
