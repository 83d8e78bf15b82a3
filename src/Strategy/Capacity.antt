-- ===== src/Strategy/Capacity.antt =====
-- Recording a rate limit: who is limited afterwards, and how large the map grows.
use lunaroute.Prelude.{ℕ, ◌≤◌, ◌<◌, String, Option, arith, length}
use lunaroute.Strategy.{
  RoutingStrategy, round_robin, weighted_round_robin, limits_alternative, StrategyState, new,
  clear_expired_rate_limits, record_rate_limit, select_provider, max_rate_limit_entries,
}
use lunaroute.Prelude.Maps.{lookup, IsUnique, insert-IsUnique, length-insert}
use lunaroute.Strategy.{bump_entry, add_entry}
use lunaroute.Strategy.LiveLimits.{retain_live-IsUnique, length-retain_live}

-- What holds of a strategy's state between two calls.
pub record Inv (st : StrategyState) : Type 0 where
  pub unique : IsUnique st.rate_limit_states
  pub bounded : length st.rate_limit_states ≤ max_rate_limit_entries

pub new-Inv : Inv new
unfolding new
new-Inv = record { unique = tt; bounded = omega arith }

pub clear-Inv : (st : StrategyState) (now : ℕ) → Inv st → Inv (clear_expired_rate_limits st now)
unfolding clear_expired_rate_limits
clear-Inv st now v = record {
  unique = retain_live-IsUnique now st.rate_limit_states v.unique;
  bounded = omega (arith, length-retain_live now st.rate_limit_states, v.bounded);
}

add_entry-Inv :
    (st : StrategyState) (p : String) (retry : Option ℕ) (base now : ℕ)
    → IsUnique st.rate_limit_states
    → length st.rate_limit_states < max_rate_limit_entries
    → Inv (add_entry st p retry base now)
unfolding add_entry
add_entry-Inv st p retry base now u h = record {
  unique = insert-IsUnique p _ st.rate_limit_states u;
  bounded = omega (
    arith,
    length-insert p (bump_entry (lookup p st.rate_limit_states) p retry base now)
        st.rate_limit_states,
  );
}

-- Recording a rate limit keeps one entry for each provider and at most 1000 entries.
pub record_rate_limit-Inv :
    (st : StrategyState) (p : String) (retry : Option ℕ) (base now : ℕ)
    → Inv st
    → Inv (record_rate_limit st p retry base now)
unfolding record_rate_limit
record_rate_limit-Inv st p retry base now v = ground (
  arith,
  clear-Inv st now v,
  add_entry-Inv st p retry base now,
  add_entry-Inv (clear_expired_rate_limits st now) p retry base now,
)

-- A selection keeps the invariant, for every strategy.
pub select_provider-Inv :
    (st : StrategyState) (strategy : RoutingStrategy) (now : ℕ)
    → Inv st
    → Inv (select_provider st strategy now).0
unfolding select_provider
select_provider-Inv st (round_robin ps) now v = ground arith
select_provider-Inv st (weighted_round_robin ps) now v = ground arith
select_provider-Inv st (limits_alternative primary alternative base) now v = clear-Inv st now v
