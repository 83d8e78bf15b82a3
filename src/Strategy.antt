-- ===== src/Strategy.antt =====
-- crates/lunaroute-routing/src/strategy.rs: how a rule chooses among its providers.
-- Instants and durations are nanoseconds; the time is an argument of each call that reads the clock.
-- Instants are unbounded: the panic of `Instant + Duration` past the clock's range is left out.
-- Provider ids are texts.
mod Cycle
pub mod RoundRobin
pub mod Weighted
pub mod Backoff
pub mod LiveLimits
pub mod Limits
pub mod Capacity
pub mod Recording
mod Examples
use lunaroute.Prelude.{
  ℕ, zero, suc, ◌+◌, ◌-◌, ◌*◌, ◌/◌, ◌%◌, ◌^◌, ◌≤◌, ◌<◌, ◌≡◌, refl, sym, ap, subst, ◌∙◌, ◌≢◌, ◌↔◌,
  ◌⊎◌, inl, inr, Bool, true, false, not, ◌&&◌, ◌||◌, String, Option, none, some, List, [], ◌∷◌,
  ◌++◌, map, arith, leb, ltb, ◌==◌, if◌then◌else◌, length, replicate, All, Bool-cases, Result, ok,
  err, ◌>>=◌,
}
use lunaroute.Prelude.Words.{
  u32_max, u32_size, u64_max, u64_size, saturating_add, saturating_mul, checked_add,
}
use lunaroute.Prelude.Maps.{lookup, insert}

abbrev pub max_rate_limit_entries : ℕ
max_rate_limit_entries = 1000

pub record RateLimitState : Type 0 where
  pub provider_id : String
  pub rate_limited_until : ℕ
  pub consecutive_rate_limits : ℕ
  pub last_rate_limit : ℕ

unfoldable pub is_expired : RateLimitState → ℕ → Bool
is_expired s now = leb s.rate_limited_until now

-- `2u64.saturating_pow(e)`.
abbrev pub saturating_pow2 : ℕ → ℕ
saturating_pow2 e = if leb (2 ^ e) u64_max then 2 ^ e else u64_max

-- `Duration::from_secs`.
abbrev pub from_secs : ℕ → ℕ
from_secs secs = secs * 1_000_000_000

-- `saturating_sub` is `-`.
unfoldable pub calculate_backoff_duration : ℕ → ℕ → ℕ
calculate_backoff_duration consecutive_limits base_delay_secs =
    from_secs (saturating_mul u64_max base_delay_secs (saturating_pow2 (consecutive_limits - 1)))

abbrev pub default_backoff_base : ℕ
default_backoff_base = 60

pub record WeightedProvider : Type 0 where
  pub id : String
  pub weight : ℕ

pub data RoutingStrategy : Type 0 where
  round_robin : List String → RoutingStrategy
  weighted_round_robin : List WeightedProvider → RoutingStrategy
  limits_alternative : List String → List String → ℕ → RoutingStrategy

unfoldable pub provider_ids : RoutingStrategy → List String
provider_ids (round_robin providers) = providers
provider_ids (weighted_round_robin providers) = map (λ p. p.id) providers
provider_ids (limits_alternative primary alternative base) = primary ++ alternative

pub data StrategyError : Type 0 where
  empty_provider_list zero_total_weight weight_overflow : StrategyError
  invalid_limits_alternative : String → StrategyError
  all_providers_rate_limited : StrategyError

-- The checked sum of the weights, from an accumulator.
unfoldable pub total_weight : ℕ → List WeightedProvider → Option ℕ
total_weight acc [] = some acc
total_weight acc (p ∷ ps) = elim (checked_add u32_max acc p.weight) [
  | none ↦ none
  | some acc' ↦ total_weight acc' ps
]

is_empty {ℓ} : {A : Type ℓ} → List A → Bool
is_empty [] = true
is_empty (x ∷ xs) = false

unfoldable pub check_weights : Option ℕ → Result StrategyError ℕ
check_weights none = err weight_overflow
check_weights (some total) = if total == 0 then err zero_total_weight else ok total

unfoldable pub validate : RoutingStrategy → Result StrategyError (Unit {0})
unfolding is_empty check_weights
validate (round_robin providers) = if is_empty providers then err empty_provider_list else ok tt
validate (weighted_round_robin providers) =
    if is_empty providers
    then err empty_provider_list
    else (check_weights (total_weight 0 providers) >>= λ _. ok tt)
validate (limits_alternative primary alternative base) =
    if is_empty primary
    then err (invalid_limits_alternative "primary_providers cannot be empty")
    else (if is_empty alternative
        then err (invalid_limits_alternative "alternative_providers cannot be empty")
        else (if base == 0
            then err
                (invalid_limits_alternative "exponential_backoff_base_secs must be greater than 0")
            else ok tt))

-- The counters are usize values that wrap. The rate limits are a map from the provider's id.
pub record StrategyState : Type 0 where
  pub round_robin_counter : ℕ
  pub current_position : ℕ
  pub rate_limit_states : List (String × RateLimitState)

unfoldable pub new : StrategyState
new = record { round_robin_counter = 0; current_position = 0; rate_limit_states = [] }

-- `retain(|_, state| !state.is_expired())`.
unfoldable pub retain_live : ℕ → List (String × RateLimitState) → List (String × RateLimitState)
unfolding is_expired
retain_live now [] = []
retain_live now ((k, s) ∷ m) =
    let rest = retain_live now m in if is_expired s now then rest else (k, s) ∷ rest

unfoldable pub clear_expired_rate_limits : StrategyState → ℕ → StrategyState
unfolding retain_live
clear_expired_rate_limits st now = record st {
  rate_limit_states = retain_live now st.rate_limit_states;
}

unfoldable pub calculate_rate_limit_duration : Option ℕ → ℕ → ℕ → ℕ
unfolding calculate_backoff_duration
calculate_rate_limit_duration (some secs) consecutive base = from_secs secs
calculate_rate_limit_duration none consecutive base = calculate_backoff_duration consecutive base

-- The entry of a provider that meets one more rate limit.
bump_entry : Option RateLimitState → String → Option ℕ → ℕ → ℕ → RateLimitState
unfolding calculate_rate_limit_duration
bump_entry (some s) provider_id retry base now =
    let n = (s.consecutive_rate_limits + 1) % u32_size in
    record s {
      consecutive_rate_limits = n;
      last_rate_limit = now;
      rate_limited_until = now + calculate_rate_limit_duration retry n base;
    }
bump_entry none provider_id retry base now = record {
  provider_id = provider_id;
  rate_limited_until = now + calculate_rate_limit_duration retry 1 base;
  consecutive_rate_limits = 1;
  last_rate_limit = now;
}

add_entry : StrategyState → String → Option ℕ → ℕ → ℕ → StrategyState
unfolding bump_entry
add_entry st provider_id retry base now = record st {
  rate_limit_states =
      insert provider_id
        (bump_entry (lookup provider_id st.rate_limit_states) provider_id retry base now)
        st.rate_limit_states;
}

unfoldable pub record_rate_limit : StrategyState → String → Option ℕ → ℕ → ℕ → StrategyState
unfolding add_entry clear_expired_rate_limits
record_rate_limit st provider_id retry base now =
    let cleared = clear_expired_rate_limits st now in
    if leb (max_rate_limit_entries * 9 / 10) (length st.rate_limit_states)
    then (if leb max_rate_limit_entries (length cleared.rate_limit_states)
        then cleared
        else add_entry cleared provider_id retry base now)
    else add_entry st provider_id retry base now

-- Whether a map entry limits its provider.
limits_now : Option RateLimitState → ℕ → Bool
unfolding is_expired
limits_now none now = false
limits_now (some s) now = not (is_expired s now)

unfoldable pub is_rate_limited : StrategyState → String → ℕ → Bool
unfolding limits_now
is_rate_limited st provider_id now = limits_now (lookup provider_id st.rate_limit_states) now

-- The first provider of the list that is not rate-limited.
unfoldable pub first_free : StrategyState → List String → ℕ → Option String
first_free st [] now = none
first_free st (p ∷ ps) now =
    let rest = first_free st ps now in if is_rate_limited st p now then rest else some p

-- `providers[i].clone()`, which panics out of range; the callers keep `i` in range.
unfoldable pub index : List String → ℕ → String
index [] i = ""
index (p ∷ ps) zero = p
index (p ∷ ps) (suc i) = index ps i

-- The walk over the cumulative weights; the fallback is the first provider.
unfoldable pub walk : String → List WeightedProvider → ℕ → ℕ → String
walk fallback [] cumulative position = fallback
walk fallback (p ∷ ps) cumulative position =
    let cumulative' = saturating_add u32_max cumulative p.weight in
    if ltb position cumulative' then p.id else walk fallback ps cumulative' position

unfoldable pub first_id : List WeightedProvider → String
first_id [] = ""
first_id (p ∷ ps) = p.id

-- `WeightedRoundRobinState::select_provider`. A usize has 64 bits, and the cast to u32 drops none.
unfoldable pub select_weighted :
    StrategyState → List WeightedProvider → StrategyState × Result StrategyError String
unfolding is_empty check_weights first_id
select_weighted st providers =
    if is_empty providers
    then (st, err empty_provider_list)
    else elim (check_weights (total_weight 0 providers)) [
      | err e ↦ (st, err e)
      | ok total ↦ (
        record st { current_position = (st.current_position + 1) % u64_size },
        ok (walk (first_id providers) providers 0 (st.current_position % total % u32_size)),
      )
    ]

select_round_robin : StrategyState → List String → StrategyState × Result StrategyError String
unfolding is_empty index
select_round_robin st providers = if is_empty providers then (st, err empty_provider_list) else (
  record st { round_robin_counter = (st.round_robin_counter + 1) % u64_size },
  ok (index providers (st.round_robin_counter % length providers)),
)

or_else {ℓ} : {A : Type ℓ} → Option A → Option A → Option A
or_else (some a) o = some a
or_else none o = o

ok_or {ℓ} : {E A : Type ℓ} → E → Option A → Result E A
ok_or e (some a) = ok a
ok_or e none = err e

unfoldable pub select_limits :
    StrategyState → List String → List String → ℕ → StrategyState × Result StrategyError String
unfolding or_else ok_or clear_expired_rate_limits first_free
select_limits st primary alternative now =
    let st' = clear_expired_rate_limits st now in
    (
      st',
      ok_or all_providers_rate_limited
          (or_else (first_free st' primary now) (first_free st' alternative now)),
    )

unfoldable pub select_provider :
    StrategyState → RoutingStrategy → ℕ → StrategyState × Result StrategyError String
unfolding select_round_robin select_weighted select_limits
select_provider st (round_robin providers) now = select_round_robin st providers
select_provider st (weighted_round_robin providers) now = select_weighted st providers
select_provider st (limits_alternative primary alternative base) now =
    select_limits st primary alternative now

-- The results of `k` selections in a row.
unfoldable pub select_many :
    ℕ → StrategyState → RoutingStrategy → ℕ → List (Result StrategyError String)
select_many zero st strategy now = []
select_many (suc k) st strategy now =
    let (st', result) = select_provider st strategy now in result ∷ select_many k st' strategy now
