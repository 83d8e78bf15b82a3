-- ===== src/Health.antt =====
-- crates/lunaroute-routing/src/health.rs: the health of the providers. Floating-point numbers are a
-- parameter with the operations that the code calls. Each call that reads the clock takes the time.
pub mod Status
mod Examples
use lunaroute.Prelude.{
  ℕ, zero, suc, ◌+◌, ◌-◌, ◌*◌, ◌/◌, ◌%◌, ◌^◌, ◌≤◌, ◌<◌, ◌≡◌, refl, sym, ap, ap₂, subst, ◌∙◌, ◌≢◌,
  ◌↔◌, ◌⊎◌, inl, inr, Bool, true, false, not, ◌&&◌, ◌||◌, String, Option, none, some, List, [], ◌∷◌,
  ◌++◌, map, arith, leb, ltb, ◌==◌, if◌then◌else◌, length, replicate, All, Bool-cases, Option-cases,
  Result, ok, err, ◌>>=◌, get_elem?, get_elem?-some, length-append, str_eq, str_eq_iff,
}
use lunaroute.Prelude.Words.{
  u32_max, u32_size, u64_max, u64_size, saturating_add, saturating_mul, checked_add,
}
use lunaroute.Prelude.Maps.{lookup, insert, remove}

-- f64: `ratio a b` is `a as f64 / b as f64`, and `geb` is `>=`.
pub record Floats : Type 1 where
  pub F : Type 0
  pub zero_float : F
  pub one_float : F
  pub ratio : ℕ → ℕ → F
  pub geb : F → F → Bool

pub data HealthStatus : Type 0 where
  healthy degraded unhealthy unknown : HealthStatus

pub record ProviderHealth : Type 0 where
  pub success_count : ℕ
  pub failure_count : ℕ
  pub last_success : Option ℕ
  pub last_failure : Option ℕ
  pub created_at : ℕ

unfoldable pub new_health : ℕ → ProviderHealth
new_health now = record {
  success_count = 0;
  failure_count = 0;
  last_success = none;
  last_failure = none;
  created_at = now;
}

unfoldable pub succeed : ProviderHealth → ℕ → ProviderHealth
succeed h now = record h {
  success_count = saturating_add u64_max h.success_count 1;
  last_success = some now;
}

unfoldable pub fail : ProviderHealth → ℕ → ProviderHealth
fail h now = record h {
  failure_count = saturating_add u64_max h.failure_count 1;
  last_failure = some now;
}

-- A u64 sum, which wraps in a release build.
unfoldable pub total_count : ProviderHealth → ℕ
total_count h = (h.success_count + h.failure_count) % u64_size

unfoldable pub time_since : Option ℕ → ℕ → Option ℕ
time_since none now = none
time_since (some t) now = some (now - t)

-- `is_some_and(|duration| duration < window)`.
below : Option ℕ → ℕ → Bool
below none window = false
below (some d) window = ltb d window

-- Whether an event happened less than `window` ago.
unfoldable pub is_recent : Option ℕ → ℕ → ℕ → Bool
unfolding time_since below
is_recent last now window = below (time_since last now) window

pub record HealthMonitorConfig (F : Type 0) : Type 0 where
  pub healthy_threshold : F
  pub unhealthy_threshold : F
  pub failure_window : ℕ
  pub min_requests : ℕ

pub data HealthConfigError : Type 0 where
  healthy_out_of_range unhealthy_out_of_range thresholds_out_of_order : HealthConfigError
  zero_window zero_min_requests : HealthConfigError

pub record HealthMonitor (F : Type 0) : Type 0 where
  pub providers : List (String × ProviderHealth)
  pub config : HealthMonitorConfig F

module _ {F : Type 0} where
  unfoldable pub new : HealthMonitorConfig F → HealthMonitor F
  new config = record { providers = []; config = config }

  register_in : Option ProviderHealth → HealthMonitor F → String → ℕ → HealthMonitor F
  register_in (some h) m provider_id now = m
  register_in none m provider_id now = record m {
    providers = insert provider_id (new_health now) m.providers;
  }

  -- `entry(id).or_insert_with(..)`.
  unfoldable pub register_provider : HealthMonitor F → String → ℕ → HealthMonitor F
  unfolding register_in
  register_provider m provider_id now =
      register_in (lookup provider_id m.providers) m provider_id now

  update_in :
      Option ProviderHealth
      → (ProviderHealth → ProviderHealth)
      → HealthMonitor F
      → String
      → HealthMonitor F
  update_in none f m provider_id = m
  update_in (some h) f m provider_id = record m { providers = insert provider_id (f h) m.providers }

  unfoldable pub record_success : HealthMonitor F → String → ℕ → HealthMonitor F
  unfolding update_in succeed
  record_success m provider_id now =
      update_in (lookup provider_id m.providers) (λ h. succeed h now) m provider_id

  unfoldable pub record_failure : HealthMonitor F → String → ℕ → HealthMonitor F
  unfolding update_in fail
  record_failure m provider_id now =
      update_in (lookup provider_id m.providers) (λ h. fail h now) m provider_id

  unfoldable pub unregister_provider : HealthMonitor F → String → HealthMonitor F
  unregister_provider m provider_id = record m { providers = remove provider_id m.providers }

  -- The reset only logs a warning.
  unfoldable pub reset_provider : HealthMonitor F → String → HealthMonitor F
  reset_provider m provider_id = m

  unfoldable pub get_provider_ids : HealthMonitor F → List String
  get_provider_ids m = map (λ e. e.0) m.providers

module _ (floats : Floats) where
  open floats use {F, zero_float, one_float, ratio, geb}

  unfoldable pub validate : HealthMonitorConfig F → Result HealthConfigError (Unit {0})
  validate c =
      if not (geb c.healthy_threshold zero_float && geb one_float c.healthy_threshold)
      then err healthy_out_of_range
      else (if not (geb c.unhealthy_threshold zero_float && geb one_float c.unhealthy_threshold)
          then err unhealthy_out_of_range
          else (if geb c.unhealthy_threshold c.healthy_threshold
              then err thresholds_out_of_order
              else (if c.failure_window / 1_000_000 == 0
                  then err zero_window
                  else (if c.min_requests == 0 then err zero_min_requests else ok tt))))

  unfoldable pub success_rate : ProviderHealth → F
  unfolding total_count
  success_rate h = if total_count h == 0 then one_float else ratio h.success_count (total_count h)

  -- The last test of `get_status`.
  unfoldable pub by_rate : HealthMonitorConfig F → F → HealthStatus
  by_rate c rate =
      if geb rate c.healthy_threshold
      then healthy
      else (if geb rate c.unhealthy_threshold then degraded else unhealthy)

  unfoldable pub status_of : HealthMonitorConfig F → Option ProviderHealth → ℕ → HealthStatus
  unfolding by_rate
  status_of c none now = unknown
  status_of c (some h) now =
      if ltb (total_count h) c.min_requests
      then unknown
      else (if is_recent h.last_failure now c.failure_window
            && not (is_recent h.last_success now c.failure_window)
          then unhealthy
          else by_rate c (success_rate h))

  unfoldable pub get_status : HealthMonitor F → String → ℕ → HealthStatus
  get_status m provider_id now = status_of m.config (lookup provider_id m.providers) now

  unfoldable pub counts_as_healthy : HealthStatus → Bool
  counts_as_healthy healthy = true
  counts_as_healthy unknown = true
  counts_as_healthy degraded = false
  counts_as_healthy unhealthy = false

  unfoldable pub is_healthy : HealthMonitor F → String → ℕ → Bool
  unfolding counts_as_healthy
  is_healthy m provider_id now = counts_as_healthy (get_status m provider_id now)

  keep_healthy : HealthMonitor F → ℕ → List String → List String
  keep_healthy m now [] = []
  keep_healthy m now (p ∷ ps) =
      let rest = keep_healthy m now ps in if is_healthy m p now then p ∷ rest else rest

  unfoldable pub get_healthy_providers : HealthMonitor F → ℕ → List String
  unfolding keep_healthy
  get_healthy_providers m now = keep_healthy m now (get_provider_ids m)
