-- ===== src/Health/Examples.antt =====
-- Theorems of the health monitor at concrete inputs.
use lunaroute.Prelude.{ℕ, ◌*◌, ◌/◌, ◌≡◌, refl, none, some, [], ◌∷◌, leb}
use lunaroute.Prelude.Maps.{lookup}
use lunaroute.Health.{Floats, ProviderHealth, HealthMonitor}

-- Rates in whole percent.
abbrev percents : Floats
percents = record {
  F = ℕ;
  zero_float = 0;
  one_float = 100;
  ratio = λ a b. 100 * a / b;
  geb = λ a b. leb b a;
}

abbrev good : ProviderHealth
good = record {
  success_count = 99;
  failure_count = 0;
  last_success = some 10;
  last_failure = none;
  created_at = 0;
}

abbrev monitor : HealthMonitor ℕ
monitor = record {
  providers = ("p", good) ∷ [];
  config = record {
    healthy_threshold = 95;
    unhealthy_threshold = 75;
    failure_window = 60;
    min_requests = 10;
  };
}

found : lookup "p" monitor.providers ≡ some good
unfolding lookup
found = refl
