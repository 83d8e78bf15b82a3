-- ===== src/Router/Attempt.antt =====
-- What one attempt at a provider, and one selection, do to the router.
use lunaroute.Prelude.{
  ℕ, ◌≡◌, refl, ap, ◌∙◌, inl, inr, true, false, String, Option, none, some, List, [], ◌∷◌, ◌++◌,
  arith, Bool-cases, Result, ok, err, map_err, str_eq_iff,
}
use lunaroute.Prelude.Maps.{lookup}
use lunaroute.CircuitBreaker.{allow_request}
use lunaroute.Normalized.{NormalizedRequest, NormalizedResponse, Error, rate_limit_exceeded}
use lunaroute.Strategy.{
  RoutingStrategy, round_robin, weighted_round_robin, limits_alternative, provider_ids,
  StrategyError, empty_provider_list, zero_total_weight, weight_overflow,
  invalid_limits_alternative, all_providers_rate_limited, StrategyState, select_provider,
  record_rate_limit,
}
use lunaroute.Strategy
use lunaroute.Router.{
  Sent, Provider, Router, is_rate_limit, get_circuit_breaker, set_breaker, get_strategy_state,
  set_strategy_state, select_provider_from_strategy, settle, logged, try_provider,
}
use lunaroute.Router.Sending.{contains}
use lunaroute.Strategy.{first_free}
use lunaroute.Router.{note_rate_limit, call_provider}

-- Either the attempt was skipped, which is no rate limit, or the provider was sent the request and
-- its reply is the result.
pub data Tried {F : Type 0} (r r' : Router F) (p : String) (q : NormalizedRequest)
    (result : Result Error NormalizedResponse) : Type 0 where
  skipped :
      (e : Error)
      → result ≡ err e
      → is_rate_limit e ≡ false
      → r'.log ≡ r.log
      → r'.providers ≡ r.providers
      → Tried r r' p q result
  contacted :
      (v : Provider)
      → lookup p r.providers ≡ some v
      → result ≡ v.send r.log q
      → r'.log ≡ r.log ++ record { provider = p; request = q } ∷ []
      → r'.providers ≡ r.providers
      → Tried r r' p q result

module _ {F : Type 0} where
  note_keeps :
      (r : Router F) (p : String) (e : Error) (strategy : Option RoutingStrategy)
      (rule : Option String) (now : ℕ)
      → ((note_rate_limit r p e strategy rule now).log ≡ r.log)
        × ((note_rate_limit r p e strategy rule now).providers ≡ r.providers)
  unfolding note_rate_limit set_strategy_state
  note_keeps r p (rate_limit_exceeded secs) (some (limits_alternative ps qs base)) (some rule) now =
      (refl, refl)
  note_keeps r p _ _ _ now = (refl, refl)

  settle_keeps :
      (r : Router F) (p : String) (result : Result Error NormalizedResponse)
      (strategy : Option RoutingStrategy) (rule : Option String) (now : ℕ)
      → ((settle r p result strategy rule now).log ≡ r.log)
        × ((settle r p result strategy rule now).providers ≡ r.providers)
  unfolding settle set_breaker
  settle_keeps r p (ok response) strategy rule now = (refl, refl)
  settle_keeps r p (err e) strategy rule now = note_keeps _ p e strategy rule now

  call-Tried :
      (clock : List Sent → ℕ) (o : Option Provider) (r r₀ : Router F) (p : String)
      (q : NormalizedRequest) (strategy : Option RoutingStrategy) (rule : Option String)
      → lookup p r₀.providers ≡ o
      → r.log ≡ r₀.log
      → r.providers ≡ r₀.providers
      → let (r', result) = call_provider clock o r p q strategy rule in Tried r₀ r' p q result
  unfolding call_provider is_rate_limit
  call-Tried clock none r r₀ p q strategy rule e l v = skipped _ refl refl l v
  call-Tried clock (some provider) r r₀ p q strategy rule e l v =
      let kept =
        settle_keeps (logged r p q) p (provider.send r.log q) strategy rule
          (clock (logged r p q).log) in
      contacted provider e (ap (λ log. provider.send log q) l)
        (kept.0 ∙ logged_log r p q ∙ ap (λ log. log ++ record { provider = p; request = q } ∷ []) l)
        (kept.1 ∙ (logged_providers r p q ∙ v))
    where
      logged_log :
          (s : Router F) (p' : String) (q' : NormalizedRequest)
          → (logged s p' q').log ≡ s.log ++ record { provider = p'; request = q' } ∷ []
      logged_log s p' q' = unfold logged in refl

      logged_providers :
          (s : Router F) (p' : String) (q' : NormalizedRequest)
          → (logged s p' q').providers ≡ s.providers
      logged_providers s p' q' = unfold logged in refl

  pub try_provider-Tried :
      (clock : List Sent → ℕ) (r : Router F) (p : String) (q : NormalizedRequest)
      (strategy : Option RoutingStrategy) (rule : Option String)
      → let (r', result) = try_provider clock r p q strategy rule in Tried r r' p q result
  unfolding try_provider set_breaker is_rate_limit
  try_provider-Tried clock r p q strategy rule =
      elim (Bool-cases (allow_request (get_circuit_breaker r p (clock r.log)) (clock r.log)).1) [
        | inl allowed ↦
            rw allowed
              (call-Tried clock (lookup p r.providers) _ r p q strategy rule refl refl refl)
        | inr refused ↦ rw refused (skipped _ refl refl refl refl)
      ]

pub contains-append_left :
    (ps qs : List String) (p : String) → contains ps p ≡ true → contains (ps ++ qs) p ≡ true
unfolding contains
contains-append_left [] qs p h = cc
contains-append_left (r ∷ ps) qs p h = ground (arith, contains-append_left ps qs p)

pub contains-append_right :
    (ps qs : List String) (p : String) → contains qs p ≡ true → contains (ps ++ qs) p ≡ true
unfolding contains
contains-append_right [] qs p h = h
contains-append_right (r ∷ ps) qs p h = ground (arith, contains-append_right ps qs p h)

first_free-contains :
    (st : StrategyState) (ps : List String) (now : ℕ) (p : String)
    → first_free st ps now ≡ some p
    → contains ps p ≡ true
unfolding first_free contains
first_free-contains st [] now p h = cc
first_free-contains st (r ∷ ps) now p h =
    ground (arith, first_free-contains st ps now p, str_eq_iff r p)

-- A selection among alternatives returns one of the strategy's providers.
pub select_limits-contains :
    (st : StrategyState) (primary alternative : List String) (base now : ℕ) (p : String)
    → (select_provider st (limits_alternative primary alternative base) now).1 ≡ ok p
    → contains (primary ++ alternative) p ≡ true
unfolding select_provider
select_limits-contains st primary alternative base now p h = ground (
  arith,
  first_free-contains (Strategy.clear_expired_rate_limits st now) primary now p,
  first_free-contains (Strategy.clear_expired_rate_limits st now) alternative now p,
  contains-append_left primary alternative p,
  contains-append_right primary alternative p,
)

pub map_err-ok {ℓ} :
    {E G A : Type ℓ} (f : E → G) (r : Result E A) (a : A) → map_err f r ≡ ok a → r ≡ ok a
map_err-ok f (ok b) a h = cc
map_err-ok f (err e) a h = cc

module _ {F : Type 0} where
  pub selected-contains :
      (r : Router F) (primary alternative : List String) (base now : ℕ) (rule p : String)
      → (select_provider_from_strategy r (limits_alternative primary alternative base) rule now).1
        ≡ ok p
      → contains (provider_ids (limits_alternative primary alternative base)) p ≡ true
  unfolding select_provider_from_strategy provider_ids
  selected-contains r primary alternative base now rule p h =
      select_limits-contains (get_strategy_state r rule) primary alternative base now p
        (map_err-ok _ _ p h)

  pub select_keeps :
      (r : Router F) (strategy : RoutingStrategy) (rule : String) (now : ℕ)
      → let r' = (select_provider_from_strategy r strategy rule now).0 in
        (r'.log ≡ r.log) × (r'.providers ≡ r.providers)
  unfolding select_provider_from_strategy set_strategy_state
  select_keeps r strategy rule now = (refl, refl)
