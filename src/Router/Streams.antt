-- ===== src/Router/Streams.antt =====
-- A stream is opened at one provider.
use lunaroute.Prelude.{
  ℕ, ◌≡◌, refl, sym, ap, subst, ◌∙◌, inl, inr, Bool, true, String, Option, none, some, List, [],
  ◌∷◌, ◌++◌, All, Bool-cases, Result, ok, err, Result-cases,
}
use lunaroute.Prelude.Maps.{lookup}
use lunaroute.CircuitBreaker.{allow_request}
use lunaroute.Normalized.{NormalizedRequest, Error}
use lunaroute.Notification.{circuit_breaker}
use lunaroute.RouteTable.{RoutingDecision, new_context, find_route}
use lunaroute.Router.{Sent, Provider, Router, get_circuit_breaker, set_breaker, inject, logged}
use lunaroute.Router.Sending.{contains, unwrap_rule, pick}
use lunaroute.Normalized.{NormalizedStreamEvent}
use lunaroute.Router.Streaming.{open_stream, stream_fallbacks, stream_by, stream}
use lunaroute.Router.Contacts.{IsFrom, IsAllowed, inject-IsFrom}
use lunaroute.Router.Answers.{
  candidates_of, fallback-candidate, strategy-candidate, primary-candidate, picked-candidate,
  pick_keeps,
}

-- What a request for a stream has done: nothing was sent and it failed, or one provider was asked
-- and its reply is the result.
pub data Streamed {F : Type 0} (candidates : List String) (q : NormalizedRequest) (r : Router F)
    : Router F × Result Error (List (Result Error NormalizedStreamEvent)) → Type 0 where
  refused : (r' : Router F) (e : Error) → r'.log ≡ r.log → Streamed candidates q r (r', err e)
  opened :
      (r' : Router F) (s : Sent) (v : Provider)
      → IsAllowed candidates q s
      → lookup s.provider r.providers ≡ some v
      → r'.log ≡ r.log ++ s ∷ []
      → Streamed candidates q r (r', v.stream r.log s.request)

module _ {F : Type 0} (clock : List Sent → ℕ) (q : NormalizedRequest) where
  -- Changes that neither send nor replace the providers make no difference.
  Streamed_from :
      (candidates : List String) (r r₀ : Router F)
      (out : Router F × Result Error (List (Result Error NormalizedStreamEvent)))
      → r.log ≡ r₀.log
      → r.providers ≡ r₀.providers
      → Streamed candidates q r out
      → Streamed candidates q r₀ out
  Streamed_from candidates r r₀ _ l v (refused r' e g) = refused r' e (g ∙ l)
  Streamed_from candidates r r₀ _ l v (opened r' s p a here g) =
      subst (λ log. Streamed candidates q r₀ (r', p.stream log s.request)) (sym l)
        (opened r' s p a (ap (lookup s.provider) (sym v) ∙ here) (g ∙ ap (λ log. log ++ s ∷ []) l))

  open-Streamed :
      (candidates : List String) (o : Option Provider) (p : String) (q' : NormalizedRequest)
      (missing : String) (r : Router F)
      → lookup p r.providers ≡ o
      → contains candidates p ≡ true
      → IsFrom q q'
      → Streamed candidates q r (open_stream clock o p q' missing r)
  unfolding open_stream logged
  open-Streamed candidates none p q' missing r e c f = refused r _ refl
  open-Streamed candidates (some v) p q' missing r e c f =
      opened (logged r p q') (record { provider = p; request = q' }) v (c, f) e refl

  fallbacks-Streamed :
      (candidates ps : List String) (primary : String) (r : Router F)
      → All (λ p. contains candidates p ≡ true) ps
      → Streamed candidates q r (stream_fallbacks clock ps q primary r)
  unfolding stream_fallbacks set_breaker
  fallbacks-Streamed candidates [] primary r a = refused r _ refl
  fallbacks-Streamed candidates (p ∷ ps) primary r a =
      elim (Bool-cases (allow_request (get_circuit_breaker r p (clock r.log)) (clock r.log)).1) [
        | inl allowed ↦
            rw (allowed, stream_fallbacks)
              (Streamed_from candidates r' r _ refl refl (
                open-Streamed candidates (lookup p r'.providers) p
                  (inject r' q primary p circuit_breaker) _ r' refl a.0
                  (inject-IsFrom candidates q r' primary p circuit_breaker)))
        | inr barred ↦
            rw (barred, stream_fallbacks)
              (Streamed_from candidates r' r _ refl refl
                (fallbacks-Streamed candidates ps primary r' a.1))
      ]
    where
      r' : Router F
      r' = set_breaker r p (allow_request (get_circuit_breaker r p (clock r.log)) (clock r.log)).0

  stream_by-Streamed :
      (d : RoutingDecision) (r : Router F) → Streamed (candidates_of d) q r (stream_by clock d q r)
  unfolding stream_by set_breaker
  stream_by-Streamed d r = elim (Result-cases choice.1) [
    | inr (x, e) ↦ rw (e, stream_by) (refused choice.0 x kept.0)
    | inl (p, e) ↦
        elim (Bool-cases
          (allow_request (get_circuit_breaker choice.0 p (clock choice.0.log))
            (clock choice.0.log)).1) [
              | inl allowed ↦
                  rw (e, allowed, stream_by)
                    (Streamed_from (candidates_of d) (checked p) r _ kept.0 kept.1 (
                      open-Streamed (candidates_of d) (lookup p (checked p).providers) p q _
                        (checked p) refl (candidate p e) (inl refl)))
              | inr barred ↦
                  rw (e, barred, stream_by)
                    (Streamed_from (candidates_of d) (checked p) r _ kept.0 kept.1 (
                      fallbacks-Streamed (candidates_of d) d.fallbacks p (checked p)
                        (fallback-candidate d)))
            ]
  ]
    where
      choice : Router F × Result Error String
      choice = pick clock d.strategy d.primary (unwrap_rule d.matched_rule) r

      kept : (choice.0.log ≡ r.log) × (choice.0.providers ≡ r.providers)
      kept = pick_keeps clock (λ ps. "") d.strategy d.primary (unwrap_rule d.matched_rule) r

      checked : String → Router F
      checked p =
          set_breaker choice.0 p
            (allow_request (get_circuit_breaker choice.0 p (clock choice.0.log))
              (clock choice.0.log)).0

      candidate : (p : String) → choice.1 ≡ ok p → contains (candidates_of d) p ≡ true
      candidate p e =
          picked-candidate clock (λ ps. "") d d.strategy d.primary (unwrap_rule d.matched_rule) r p
            (strategy-candidate d) (primary-candidate d) e

  -- Once a request for a stream has a route, at most one provider is asked: a provider of that route,
  -- with the client's request or with one notification in front of it, and its reply is the result.
  -- When none is asked, the result is an error.
  pub stream-Streamed :
      (compile : String → Option (String → Bool)) (r : Router F) (d : RoutingDecision)
      → find_route compile r.route_table q new_context ≡ some d
      → Streamed (candidates_of d) q r (stream clock compile q r)
  unfolding stream
  stream-Streamed compile r d e = rw (e, stream) (stream_by-Streamed d r)
