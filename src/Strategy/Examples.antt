-- ===== src/Strategy/Examples.antt =====
-- Tests of the routing strategies, and their theorems at concrete inputs.
use lunaroute.Prelude.{◌≡◌, refl, String, none, List, [], ◌∷◌, map, arith, length, ok}
use lunaroute.Strategy.{
  calculate_backoff_duration, WeightedProvider, round_robin, weighted_round_robin,
  limits_alternative, total_weight, validate, StrategyState, new, record_rate_limit,
  is_rate_limited, select_provider, select_many, from_secs,
}
use lunaroute.Strategy.RoundRobin.{round_robin_fair}
use lunaroute.Strategy.Weighted.{expand, weighted_proportional}
use lunaroute.Strategy.Capacity.{Inv}
use lunaroute.Strategy.Recording.{IsFirstLimit, selected_backoff_is_base}
use lunaroute.Prelude.Maps.{lookup, IsUnique}

abbrev three : List String
three = "p1" ∷ "p2" ∷ "p3" ∷ []

wraps_around : select_many 4 new (round_robin three) 0 ≡ ok "p1" ∷ ok "p2" ∷ ok "p3" ∷ ok "p1" ∷ []
unfolding select_many select_provider new
wraps_around = refl

round_robin_fair_example : select_many 3 new (round_robin three) 0 ≡ map ok three
unfolding new
round_robin_fair_example = round_robin_fair three new 0 (λ e. cc) refl (omega arith)

abbrev weights : List WeightedProvider
weights = record { id = "a"; weight = 2 } ∷ record { id = "b"; weight = 1 } ∷ []

weights-valid : validate (weighted_round_robin weights) ≡ ok tt
unfolding validate total_weight
weights-valid = refl

weighted_proportional_example :
    select_many (length (expand weights)) new (weighted_round_robin weights) 0
    ≡ map ok (expand weights)
unfolding new expand
weighted_proportional_example = weighted_proportional weights new 0 weights-valid refl (omega arith)

third_limit : calculate_backoff_duration 3 60 ≡ from_secs 240
unfolding calculate_backoff_duration
third_limit = refl

abbrev limited : StrategyState
limited = record {
  round_robin_counter = 0;
  current_position = 0;
  rate_limit_states =
      (
        "p1",
        record {
          provider_id = "p1";
          rate_limited_until = 90;
          consecutive_rate_limits = 1;
          last_rate_limit = 30;
        },
      )
      ∷ [];
}

limited-IsUnique : IsUnique limited.rate_limit_states
unfolding lookup
limited-IsUnique = (refl, tt)

limited-Inv : Inv limited
limited-Inv = record { unique = limited-IsUnique; bounded = omega arith }

takes_alternative :
    (select_provider limited (limits_alternative ("p1" ∷ []) ("p2" ∷ []) 60) 40).1 ≡ ok "p2"
unfolding select_provider is_rate_limited lookup
takes_alternative = refl

selected_backoff_is_base_example :
    let st' = (select_provider limited (limits_alternative ("p1" ∷ []) ("p2" ∷ []) 60) 90).0 in
    IsFirstLimit (lookup "p1" (record_rate_limit st' "p1" none 60 95).rate_limit_states) 60 95
unfolding select_provider is_rate_limited lookup
selected_backoff_is_base_example =
    selected_backoff_is_base limited "p1" 90 95 60 ("p1" ∷ []) ("p2" ∷ []) limited-Inv (omega arith)
      (omega arith) refl
