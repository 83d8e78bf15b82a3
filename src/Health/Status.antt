-- ===== src/Health/Status.antt =====
-- What a recorded outcome does to the status of a provider.
use lunaroute.Prelude.{
  ℕ, ◌+◌, ◌≤◌, ◌<◌, ◌≡◌, refl, ap₂, ◌∙◌, ◌≢◌, false, String, Option, none, some, arith,
  if◌then◌else◌, str_eq, str_eq_iff,
}
use lunaroute.Prelude.Words.{u64_max}
use lunaroute.Prelude.Maps.{lookup, lookup-insert, lookup-insert_self}
use lunaroute.Health.{
  Floats, unhealthy, ProviderHealth, succeed, fail, total_count, is_recent, HealthMonitorConfig,
  HealthMonitor, record_success, record_failure, success_rate, by_rate, status_of, get_status,
  update_in,
}

module _ {F : Type 0} where
  -- The entries after an outcome of a registered provider.
  lookup-update_in :
      (m : HealthMonitor F) (p q : String) (h : ProviderHealth)
      (f : ProviderHealth → ProviderHealth)
      → lookup q (update_in (some h) f m p).providers
        ≡ (if str_eq p q then some (f h) else lookup q m.providers)
  unfolding update_in
  lookup-update_in m p q h f = lookup-insert p q (f h) m.providers

  lookup-record_failure :
      (m : HealthMonitor F) (p : String) (t : ℕ) (h : ProviderHealth)
      → lookup p m.providers ≡ some h
      → lookup p (record_failure m p t).providers ≡ some (fail h t)
  unfolding record_failure
  lookup-record_failure m p t h e = rw e (lookup-insert_self p (fail h t) m.providers)

  lookup-record_success :
      (m : HealthMonitor F) (p : String) (t : ℕ) (h : ProviderHealth)
      → lookup p m.providers ≡ some h
      → lookup p (record_success m p t).providers ≡ some (succeed h t)
  unfolding record_success
  lookup-record_success m p t h e = rw e (lookup-insert_self p (succeed h t) m.providers)

  other_update :
      (m : HealthMonitor F) (p q : String) (o : Option ProviderHealth)
      (f : ProviderHealth → ProviderHealth)
      → str_eq p q ≡ false
      → lookup q (update_in o f m p).providers ≡ lookup q m.providers
  unfolding update_in
  other_update m p q none f h = refl
  other_update m p q (some g) f h = rw (lookup-insert p q (f g) m.providers, h)

  config-update :
      (m : HealthMonitor F) (p : String) (o : Option ProviderHealth)
      (f : ProviderHealth → ProviderHealth)
      → (update_in o f m p).config ≡ m.config
  unfolding update_in
  config-update m p none f = refl
  config-update m p (some h) f = refl

module _ (floats : Floats) where
  open floats use {F}

  failing_status :
      (c : HealthMonitorConfig F) (h : ProviderHealth) (t now : ℕ)
      → t ≤ now
      → now < t + c.failure_window
      → is_recent h.last_success now c.failure_window ≡ false
      → h.success_count + h.failure_count < u64_max
      → c.min_requests ≤ h.success_count + h.failure_count + 1
      → status_of floats c (some (fail h t)) now ≡ unhealthy
  unfolding status_of fail total_count is_recent
  failing_status c h t now a b s fits enough = ground arith

  get_status-lookup :
      (m m' : HealthMonitor F) (p : String) (now : ℕ) (o : Option ProviderHealth)
      → lookup p m'.providers ≡ o
      → m'.config ≡ m.config
      → get_status floats m' p now ≡ status_of floats m.config o now
  unfolding get_status
  get_status-lookup m m' p now o e c = ap₂ (λ d l. status_of floats d l now) c e

  -- An outage shows at once: when a failure of a registered provider with enough requests is
  -- recorded, and it has had no success in the window, then its status is unhealthy until the window
  -- from the failure is over, whatever its success rate.
  pub outage_is_unhealthy :
      (m : HealthMonitor F) (p : String) (h : ProviderHealth) (t now : ℕ)
      → lookup p m.providers ≡ some h
      → t ≤ now
      → now < t + m.config.failure_window
      → is_recent h.last_success now m.config.failure_window ≡ false
      → h.success_count + h.failure_count < u64_max
      → m.config.min_requests ≤ h.success_count + h.failure_count + 1
      → get_status floats (record_failure m p t) p now ≡ unhealthy
  outage_is_unhealthy m p h t now e a b s fits enough =
      get_status-lookup m (record_failure m p t) p now (some (fail h t))
        (lookup-record_failure m p t h e)
        (unfold record_failure in config-update m p (lookup p m.providers) (λ g. fail g t))
      ∙ failing_status m.config h t now a b s fits enough

  recovered_status :
      (c : HealthMonitorConfig F) (h : ProviderHealth) (t now : ℕ)
      → t ≤ now
      → now < t + c.failure_window
      → c.min_requests ≤ h.success_count + h.failure_count + 1
      → h.success_count + h.failure_count < u64_max
      → status_of floats c (some (succeed h t)) now
        ≡ by_rate floats c (success_rate floats (succeed h t))
  unfolding status_of succeed total_count is_recent
  recovered_status c h t now a b enough fits = ground arith

  -- A recent success lifts the outage rule: within the window from a success, a registered provider
  -- with enough requests has the status that its success rate gives.
  pub success_lifts_outage :
      (m : HealthMonitor F) (p : String) (h : ProviderHealth) (t now : ℕ)
      → lookup p m.providers ≡ some h
      → t ≤ now
      → now < t + m.config.failure_window
      → m.config.min_requests ≤ h.success_count + h.failure_count + 1
      → h.success_count + h.failure_count < u64_max
      → get_status floats (record_success m p t) p now
        ≡ by_rate floats m.config (success_rate floats (succeed h t))
  success_lifts_outage m p h t now e a b enough fits =
      get_status-lookup m (record_success m p t) p now (some (succeed h t))
        (lookup-record_success m p t h e)
        (unfold record_success in config-update m p (lookup p m.providers) (λ g. succeed g t))
      ∙ recovered_status m.config h t now a b enough fits

  -- An outcome of one provider leaves the status of every other as it was.
  pub outcome_is_local :
      (m : HealthMonitor F) (p q : String) (t now : ℕ)
      → p ≢ q
      → (get_status floats (record_success m p t) q now ≡ get_status floats m q now)
        × (get_status floats (record_failure m p t) q now ≡ get_status floats m q now)
  unfolding record_success record_failure get_status
  outcome_is_local m p q t now n = (
    ap₂ (λ d l. status_of floats d l now) (config-update m p o (λ g. succeed g t))
        (other_update m p q o (λ g. succeed g t) other),
    ap₂ (λ d l. status_of floats d l now) (config-update m p o (λ g. fail g t))
        (other_update m p q o (λ g. fail g t) other),
  )
    where
      o : Option ProviderHealth
      o = lookup p m.providers

      other : str_eq p q ≡ false
      other = ground (arith, str_eq_iff p q)
