-- ===== src/CircuitBreaker/Race.antt =====
-- The writes of circuit_breaker.rs one by one, as several threads interleave them.
use Prim.Native.Nat.{zero}
use lunaroute.Prelude.{
  ℕ, suc, ◌≤◌, ◌≡◌, refl, sym, ◌∙◌, ◌≢◌, inl, inr, Bool, true, false, List, [], ◌∷◌, arith,
  if◌then◌else◌, All, Bool-cases,
}
use lunaroute.Prelude.Words.{u32_max, saturating_add}
use lunaroute.CircuitBreaker.{
  CircuitState, closed, open_circuit, half_open, CircuitBreaker, transition_to_open, allow_request,
  elapsed,
}

-- One atomic write to the shared breaker.
pub data Write : Type 0 where
  store_open store_closed exchange reset_failures reset_successes : Write
  bump_failures bump_successes : Write
  stamp : ℕ → Write

-- The breaker after the write, and whether it was an exchange of `Open` for `HalfOpen` that
-- succeeded.
exchange_in : CircuitState → CircuitBreaker → CircuitBreaker × Bool
exchange_in open_circuit b = (record b { state = half_open }, true)
exchange_in closed b = (b, false)
exchange_in half_open b = (b, false)

unfoldable pub write : CircuitBreaker → Write → CircuitBreaker × Bool
unfolding exchange_in
write b store_open = (record b { state = open_circuit }, false)
write b store_closed = (record b { state = closed }, false)
write b exchange = exchange_in b.state b
write b reset_failures = (record b { consecutive_failures = 0 }, false)
write b reset_successes = (record b { consecutive_successes = 0 }, false)
write b bump_failures =
    (record b { consecutive_failures = saturating_add u32_max b.consecutive_failures 1 }, false)
write b bump_successes =
    (record b { consecutive_successes = saturating_add u32_max b.consecutive_successes 1 }, false)
write b (stamp now) = (record b { last_state_change = now }, false)

-- The writes of all threads in the order in which they took effect, and how many exchanges won.
unfoldable pub writes : CircuitBreaker → List Write → CircuitBreaker × ℕ
unfolding write
writes b [] = (b, 0)
writes b (w ∷ ws) =
    let (b', won) = write b w in
    let (b'', winners) = writes b' ws in (b'', if won then suc winners else winners)

-- The writes of `transition_to_open`, in its order.
unfoldable pub opening_writes : ℕ → List Write
opening_writes now = store_open ∷ stamp now ∷ reset_failures ∷ reset_successes ∷ []

-- Alone, the writes of `transition_to_open` make the transition.
pub writes-opening :
    (b : CircuitBreaker) (now : ℕ) → (writes b (opening_writes now)).0 ≡ transition_to_open b now
unfolding writes opening_writes transition_to_open
writes-opening b now = refl

-- Where the circuit is not open, a write other than `store_open` wins no exchange and opens nothing.
write_loses :
    (b : CircuitBreaker) (w : Write)
    → b.state ≢ open_circuit
    → w ≢ store_open
    → ((write b w).0.state ≢ open_circuit) × ((write b w).1 ≡ false)
unfolding write
write_loses b store_open h n = absurd (n refl)
write_loses b exchange h n = ground arith
write_loses b _ h n = ground arith

-- An exchange that wins leaves the circuit half-open.
write_wins :
    (b : CircuitBreaker) (w : Write) → (write b w).1 ≡ true → (write b w).0.state ≡ half_open
unfolding write
write_wins b exchange h = ground arith
write_wins b _ h = ground arith

no_winner :
    (b : CircuitBreaker) (ws : List Write)
    → b.state ≢ open_circuit
    → All (λ w. w ≢ store_open) ws
    → (writes b ws).1 ≡ 0
unfolding writes
no_winner b [] h a = refl
no_winner b (w ∷ ws) h a =
    let lost = write_loses b w h a.0 in rw lost.1 (no_winner (write b w).0 ws lost.0 a.1)

half_open_ne_open : half_open ≢ open_circuit
half_open_ne_open e = cc

-- However the threads interleave, at most one of them wins the exchange of `Open` for `HalfOpen`
-- until some thread stores `Open` again.
pub one_winner :
    (b : CircuitBreaker) (ws : List Write) → All (λ w. w ≢ store_open) ws → (writes b ws).1 ≤ 1
unfolding writes
one_winner b [] a = omega arith
one_winner b (w ∷ ws) a = elim (Bool-cases (write b w).1) [
  | inl won ↦ rw won (
      omega (
        arith,
        no_winner (write b w).0 ws (λ e. half_open_ne_open (sym (write_wins b w won) ∙ e)) a.1,
      ))
  | inr lost ↦ rw lost (one_winner (write b w).0 ws a.1)
]

-- A sequence of writes, cut after its first `n`.
pub take : ℕ → List Write → List Write
take zero ws = []
take (suc n) [] = []
take (suc n) (w ∷ ws) = w ∷ take n ws

pub drop : ℕ → List Write → List Write
drop zero ws = ws
drop (suc n) [] = []
drop (suc n) (w ∷ ws) = drop n ws

-- If the state last changed a timeout ago or earlier, a request that another thread makes after the
-- first of the writes of `transition_to_open` finds the circuit open and the old time: it is admitted
-- at once and half-opens the circuit, and the rest of the writes do not undo it.
pub opening_race :
    (b : CircuitBreaker) (now : ℕ)
    → b.config.timeout ≤ elapsed b.last_state_change now
    → let opened = (writes b (take 1 (opening_writes now))).0 in
      let (probed, admitted) = allow_request opened now in
      (opened.state ≡ open_circuit)
      × (admitted ≡ true)
      × ((writes probed (drop 1 (opening_writes now))).0.state ≡ half_open)
unfolding opening_writes take drop write writes allow_request
opening_race b now h = ground arith
