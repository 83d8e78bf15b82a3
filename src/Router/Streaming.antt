-- ===== src/Router/Streaming.antt =====
-- crates/lunaroute-routing/src/provider_router.rs: the streams of the router. The first provider
-- whose circuit admits the request is asked for the stream, and nothing is recorded of its reply.
use lunaroute.Prelude.{
  ℕ, Bool, true, false, String, Option, none, some, List, [], ◌∷◌, Result, ok, err,
}
use Prim.Native.String.{◌++◌ as str_append}
use lunaroute.Prelude.Maps.{lookup}
use lunaroute.CircuitBreaker.{allow_request}
use lunaroute.Normalized.{NormalizedRequest, NormalizedStreamEvent, Error, provider_error}
use lunaroute.Notification.{circuit_breaker}
use lunaroute.RouteTable.{RoutingDecision, new_context, find_route}
use lunaroute.Router.{Sent, Provider, Router, inject, get_circuit_breaker, set_breaker, logged}
use lunaroute.Router.Sending.{pick, unwrap_rule, no_route}

-- `clock` is the time once the given requests have been sent.
module _ {F : Type 0} (clock : List Sent → ℕ) where
  unfoldable pub open_stream :
      Option Provider
      → String
      → NormalizedRequest
      → String
      → Router F
      → Router F × Result Error (List (Result Error NormalizedStreamEvent))
  open_stream none p q missing r =
      (r, err (provider_error (str_append missing (str_append p "' not found"))))
  open_stream (some provider) p q missing r = (logged r p q, provider.stream r.log q)

  -- The fallbacks of a stream whose primary is behind an open circuit.
  unfoldable pub stream_fallbacks :
      List String
      → NormalizedRequest
      → String
      → Router F
      → Router F × Result Error (List (Result Error NormalizedStreamEvent))
  unfolding open_stream
  stream_fallbacks [] q primary r = (
    r,
    err (
        provider_error (
          str_append "Circuit breaker open and no healthy fallbacks for model '"
            (str_append q.model "'"))),
  )
  stream_fallbacks (p ∷ ps) q primary r =
      let (b, allowed) = allow_request (get_circuit_breaker r p (clock r.log)) (clock r.log) in
      let r' = set_breaker r p b in
      elim allowed [
        | true ↦
            open_stream (lookup p r'.providers) p (inject r' q primary p circuit_breaker)
              "Fallback provider '" r'
        | false ↦ stream_fallbacks ps q primary r'
      ]

  unfoldable pub stream_by :
      RoutingDecision
      → NormalizedRequest
      → Router F
      → Router F × Result Error (List (Result Error NormalizedStreamEvent))
  unfolding pick unwrap_rule open_stream
  stream_by d q r =
      let (r', picked) = pick clock d.strategy d.primary (unwrap_rule d.matched_rule) r in
      elim picked [
        | err e ↦ (r', err e)
        | ok p ↦
            let (b, allowed) =
              allow_request (get_circuit_breaker r' p (clock r'.log)) (clock r'.log) in
            let r'' = set_breaker r' p b in
            elim allowed [
              | true ↦ open_stream (lookup p r''.providers) p q "Provider '" r''
              | false ↦ stream_fallbacks d.fallbacks q p r''
            ]
      ]

  -- `Provider::stream` of the router.
  unfoldable pub stream :
      (String → Option (String → Bool))
      → NormalizedRequest
      → Router F
      → Router F × Result Error (List (Result Error NormalizedStreamEvent))
  unfolding no_route
  stream compile q r = elim (find_route compile r.route_table q new_context) [
    | none ↦ (r, err (no_route q.model))
    | some d ↦ stream_by d q r
  ]
