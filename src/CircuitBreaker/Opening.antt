-- ===== src/CircuitBreaker/Opening.antt =====
-- A closed circuit opens exactly on a run of failures.
use lunaroute.Prelude.{
  ℕ, zero, suc, ◌+◌, ◌-◌, ◌≤◌, ◌<◌, ◌≡◌, sym, ◌∙◌, ◌≢◌, ◌↔◌, ◌⊎◌, inl, inr, List, [], ◌∷◌, arith,
}
use lunaroute.Prelude.Words.{u32_max}
use lunaroute.CircuitBreaker.{
  closed, open_circuit, CircuitBreakerConfig, CircuitBreaker, new, record_success, record_failure,
}
use lunaroute.CircuitBreaker.Invariant.{IsConfig}

pub data Outcome : Type 0 where
  success failure : Outcome

-- The outcome of one request, recorded at its time.
pub record_outcome : CircuitBreaker → ℕ × Outcome → CircuitBreaker
record_outcome b (now, success) = record_success b now
record_outcome b (now, failure) = record_failure b now

pub record_all : CircuitBreaker → List (ℕ × Outcome) → CircuitBreaker
unfolding record_outcome
record_all b [] = b
record_all b (o ∷ os) = record_all (record_outcome b o) os

-- The outcomes begin with `n` failures.
abbrev pub Failures : ℕ → List (ℕ × Outcome) → Type 0
Failures zero os = Unit
Failures (suc n) [] = ⊥
Failures (suc n) ((t, success) ∷ os) = ⊥
Failures (suc n) ((t, failure) ∷ os) = Failures n os

-- Somewhere in the outcomes stand `n` failures in a row.
abbrev pub HasRun : ℕ → List (ℕ × Outcome) → Type 0
HasRun n [] = Failures n []
HasRun n (o ∷ os) = Failures n (o ∷ os) ⊎ HasRun n os

Failures-le : (m n : ℕ) (os : List (ℕ × Outcome)) → m ≤ n → Failures n os → Failures m os
Failures-le zero n os h f = tt
Failures-le (suc m) zero os h f = absurd (omega arith)
Failures-le (suc m) (suc n) ((t, failure) ∷ os) h f = Failures-le m n os (omega arith) f
Failures-le (suc m) (suc n) [] h f = f
Failures-le (suc m) (suc n) ((t, success) ∷ os) h f = f

HasRun-here : (n : ℕ) (os : List (ℕ × Outcome)) → Failures n os → HasRun n os
HasRun-here n [] f = f
HasRun-here n (o ∷ os) f = inl f

-- Outcomes do not close an open circuit.
open_stays :
    (b : CircuitBreaker) (os : List (ℕ × Outcome))
    → b.state ≡ open_circuit
    → (record_all b os).state ≡ open_circuit
unfolding record_all
open_stays b [] h = h
open_stays b ((t, success) ∷ os) h =
    open_stays (record_success b t) os (unfold record_success in ground arith)
open_stays b ((t, failure) ∷ os) h =
    open_stays (record_failure b t) os (unfold record_failure in ground arith)

-- A closed breaker, `m + 1` failures short of its threshold.
record Short (b : CircuitBreaker) (n m : ℕ) : Type 0 where
  threshold : b.config.failure_threshold ≡ suc n
  is_closed : b.state ≡ closed
  short : b.consecutive_failures + m ≡ n
  fits : suc n ≤ u32_max

after_success : (b : CircuitBreaker) (n m t : ℕ) → Short b n m → Short (record_success b t) n n
unfolding record_success
after_success b n m t s = ground arith

after_failure :
    (b : CircuitBreaker) (n m t : ℕ) → Short b n (suc m) → Short (record_failure b t) n m
unfolding record_failure
after_failure b n m t s = ground arith

last_failure :
    (b : CircuitBreaker) (n t : ℕ) → Short b n 0 → (record_failure b t).state ≡ open_circuit
unfolding record_failure
last_failure b n t s = ground arith

new-Short :
    (c : CircuitBreakerConfig) (now n : ℕ)
    → c.failure_threshold ≡ suc n
    → IsConfig c
    → Short (new c now) n n
unfolding new
new-Short c now n e k = ground arith

opens→HasRun :
    (b : CircuitBreaker) (n m : ℕ) (os : List (ℕ × Outcome))
    → Short b n m
    → (record_all b os).state ≡ open_circuit
    → Failures (suc m) os ⊎ HasRun (suc n) os
unfolding record_all
opens→HasRun b n m [] s h = absurd (closed_ne_open (sym s.is_closed ∙ h))
  where
    closed_ne_open : closed ≢ open_circuit
    closed_ne_open e = cc
opens→HasRun b n m ((t, success) ∷ os) s h =
    inr (inr (merge (opens→HasRun (record_success b t) n n os (after_success b n m t s) h)))
  where
    merge : Failures (suc n) os ⊎ HasRun (suc n) os → HasRun (suc n) os
    merge (inl f) = HasRun-here (suc n) os f
    merge (inr r) = r
opens→HasRun b n zero ((t, failure) ∷ os) s h = inl tt
opens→HasRun b n (suc m) ((t, failure) ∷ os) s h =
    elim (opens→HasRun (record_failure b t) n m os (after_failure b n m t s) h) [
      | inl f ↦ inl f
      | inr r ↦ inr (inr r)
    ]

HasRun→opens :
    (b : CircuitBreaker) (n m : ℕ) (os : List (ℕ × Outcome))
    → Short b n m
    → Failures (suc m) os ⊎ HasRun (suc n) os
    → (record_all b os).state ≡ open_circuit
unfolding record_all
HasRun→opens b n m [] s (inl f) = absurd f
HasRun→opens b n m [] s (inr f) = absurd f
HasRun→opens b n m ((t, success) ∷ os) s (inl f) = absurd f
HasRun→opens b n m ((t, success) ∷ os) s (inr (inl f)) = absurd f
HasRun→opens b n m ((t, success) ∷ os) s (inr (inr r)) =
    HasRun→opens (record_success b t) n n os (after_success b n m t s) (inr r)
HasRun→opens b n zero ((t, failure) ∷ os) s f =
    open_stays (record_failure b t) os (last_failure b n t s)
HasRun→opens b n (suc m) ((t, failure) ∷ os) s (inl f) =
    HasRun→opens (record_failure b t) n m os (after_failure b n m t s) (inl f)
HasRun→opens b n (suc m) ((t, failure) ∷ os) s (inr (inl f)) =
    HasRun→opens (record_failure b t) n m os (after_failure b n m t s)
      (inl (Failures-le (suc m) n os (omega (arith, s.short)) f))
HasRun→opens b n (suc m) ((t, failure) ∷ os) s (inr (inr r)) =
    HasRun→opens (record_failure b t) n m os (after_failure b n m t s) (inr r)

-- From a new breaker with a threshold of at least 1, any outcomes of requests leave the circuit
-- open exactly when they contain as many failures in a row as the threshold; in particular no
-- number of failures opens it while successes keep the runs short.
pub opens_iff_HasRun :
    (c : CircuitBreakerConfig) (now : ℕ) (os : List (ℕ × Outcome))
    → IsConfig c
    → 0 < c.failure_threshold
    → ((record_all (new c now) os).state ≡ open_circuit) ↔ HasRun c.failure_threshold os
opens_iff_HasRun c now os k pos = (
  λ h. rw e (merge (opens→HasRun (new c now) n n os fresh h)),
  λ r. HasRun→opens (new c now) n n os fresh (inr (rw e at r)),
)
  where
    n : ℕ
    n = c.failure_threshold - 1

    e : c.failure_threshold ≡ suc n
    e = omega arith

    fresh : Short (new c now) n n
    fresh = new-Short c now n e k

    merge : Failures (suc n) os ⊎ HasRun (suc n) os → HasRun (suc n) os
    merge (inl f) = HasRun-here (suc n) os f
    merge (inr r) = r
