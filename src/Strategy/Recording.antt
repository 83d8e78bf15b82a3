-- ===== src/Strategy/Recording.antt =====
-- What one recorded rate limit changes, and how often the backoff doubles.
use lunaroute.Prelude.{
  ℕ, ◌+◌, ◌*◌, ◌≤◌, ◌<◌, ◌≡◌, refl, ap, ap₂, ◌∙◌, inl, inr, false, String, Option, none, some, List,
  [], ◌∷◌, arith, leb, ltb, if◌then◌else◌, length, Bool-cases, ok, str_eq,
}
use lunaroute.Prelude.Words.{u64_max}
use lunaroute.Strategy.{
  RateLimitState, is_expired, calculate_backoff_duration, limits_alternative, StrategyState,
  clear_expired_rate_limits, calculate_rate_limit_duration, record_rate_limit, is_rate_limited,
  first_free, select_provider, from_secs, max_rate_limit_entries,
}
use lunaroute.Prelude.Maps.{lookup, IsUnique, lookup-insert}
use lunaroute.Strategy.{limits_now, bump_entry, add_entry}
use lunaroute.Strategy.LiveLimits.{live, retain_live-lookup, length-retain_live}
use lunaroute.Strategy.Capacity.{Inv, clear-Inv}
use lunaroute.Prelude.Maps.{lookup-insert_self}
use Prim.Native.Nat.{min}
use lunaroute.Strategy.Backoff.{calculate_backoff_duration-min}

-- An entry limits its provider until its time.
limits_now-lt : (s : RateLimitState) (t : ℕ) → limits_now (some s) t ≡ ltb t s.rate_limited_until
unfolding limits_now is_expired
limits_now-lt s t = ground arith

add_entry-limited :
    (st : StrategyState) (p q : String) (retry : Option ℕ) (base now t : ℕ)
    → is_rate_limited (add_entry st p retry base now) q t ≡ (
        if str_eq p q
        then ltb t (bump_entry (lookup p st.rate_limit_states) p retry base now).rate_limited_until
        else is_rate_limited st q t)
unfolding add_entry is_rate_limited
add_entry-limited st p q retry base now t =
    rw
      (lookup-insert p q (bump_entry (lookup p st.rate_limit_states) p retry base now)
        st.rate_limit_states)
      (elim (Bool-cases (str_eq p q)) [
        | inl same ↦
            rw same (limits_now-lt (bump_entry (lookup p st.rate_limit_states) p retry base now) t)
        | inr other ↦ rw other
      ])

live_later :
    (s : RateLimitState) (now t : ℕ)
    → now ≤ t
    → limits_now (live (some s) now) t ≡ limits_now (some s) t
unfolding live limits_now is_expired
live_later s now t h = ground arith

cleared_fits :
    (st : StrategyState) (now : ℕ)
    → length st.rate_limit_states < max_rate_limit_entries
    → leb max_rate_limit_entries (length (clear_expired_rate_limits st now).rate_limit_states)
      ≡ false
unfolding clear_expired_rate_limits
cleared_fits st now h = ground (arith, length-retain_live now st.rate_limit_states)

cleared_room :
    (st : StrategyState) (now : ℕ)
    → length st.rate_limit_states < max_rate_limit_entries
    → length (clear_expired_rate_limits st now).rate_limit_states < max_rate_limit_entries
unfolding clear_expired_rate_limits
cleared_room st now h = omega (arith, length-retain_live now st.rate_limit_states)

-- An entry that has expired stays expired.
cleared_later :
    (st : StrategyState) (q : String) (now t : ℕ)
    → IsUnique st.rate_limit_states
    → now ≤ t
    → is_rate_limited (clear_expired_rate_limits st now) q t ≡ is_rate_limited st q t
unfolding is_rate_limited clear_expired_rate_limits live
cleared_later st q now t u h =
    rw (retain_live-lookup q now st.rate_limit_states u) (kept (lookup q st.rate_limit_states))
  where
    kept : (o : Option RateLimitState) → limits_now (live o now) t ≡ limits_now o t
    kept none = refl
    kept (some s) = live_later s now t h

bump_entry-retry :
    (o : Option RateLimitState) (p : String) (secs base now : ℕ)
    → (bump_entry o p (some secs) base now).rate_limited_until ≡ now + from_secs secs
unfolding bump_entry calculate_rate_limit_duration
bump_entry-retry none p secs base now = refl
bump_entry-retry (some s) p secs base now = refl

-- When a provider answers with a retry-after time and the map has room, that provider is limited
-- for exactly that time from now, and from now on no other provider's answer changes.
pub record_rate_limit-limits :
    (st : StrategyState) (p q : String) (secs base now t : ℕ)
    → Inv st
    → length st.rate_limit_states < max_rate_limit_entries
    → now ≤ t
    → is_rate_limited (record_rate_limit st p (some secs) base now) q t
      ≡ (if str_eq p q then ltb t (now + from_secs secs) else is_rate_limited st q t)
unfolding record_rate_limit
record_rate_limit-limits st p q secs base now t v room h =
    elim (Bool-cases (leb 900 (length st.rate_limit_states))) [
      | inl near ↦
          rw (near, fits)
            (add_entry-limited cleared p q (some secs) base now t
              ∙ ap₂ (λ (u : ℕ) b. if str_eq p q then ltb t u else b)
                  (bump_entry-retry (lookup p cleared.rate_limit_states) p secs base now)
                  (cleared_later st q now t v.unique h))
      | inr far ↦ rw far (
          add_entry-limited st p q (some secs) base now t
          ∙ ap (λ (u : ℕ). if str_eq p q then ltb t u else is_rate_limited st q t)
              (bump_entry-retry (lookup p st.rate_limit_states) p secs base now))
    ]
  where
    cleared : StrategyState
    cleared = clear_expired_rate_limits st now

    fits : leb max_rate_limit_entries (length cleared.rate_limit_states) ≡ false
    fits = cleared_fits st now room

selected_unlisted :
    (o : Option RateLimitState) (now : ℕ) → limits_now (live o now) now ≡ false → live o now ≡ none
unfolding live limits_now
selected_unlisted none now h = refl
selected_unlisted (some s) now h = ground arith

cleared_unlisted :
    (st : StrategyState) (p : String) (now : ℕ)
    → IsUnique st.rate_limit_states
    → is_rate_limited (clear_expired_rate_limits st now) p now ≡ false
    → lookup p (clear_expired_rate_limits st now).rate_limit_states ≡ none
unfolding is_rate_limited clear_expired_rate_limits
cleared_unlisted st p now u e =
    let r = retain_live-lookup p now st.rate_limit_states u in
    r ∙ selected_unlisted (lookup p st.rate_limit_states) now (rw r at e)

first_free-free :
    (st : StrategyState) (p : String) (now : ℕ) (ps : List String)
    → first_free st ps now ≡ some p
    → is_rate_limited st p now ≡ false
unfolding first_free
first_free-free st p now [] h = cc
first_free-free st p now (q ∷ ps) h = elim (Bool-cases (is_rate_limited st q now)) [
  | inl limited ↦ first_free-free st p now ps (rw limited at h)
  | inr free ↦ ground arith
]

-- The provider that a selection returns has no entry left in the map.
selected-lookup :
    (st : StrategyState) (p : String) (now base : ℕ) (primary alternative : List String)
    → IsUnique st.rate_limit_states
    → (select_provider st (limits_alternative primary alternative base) now).1 ≡ ok p
    → lookup p (clear_expired_rate_limits st now).rate_limit_states ≡ none
unfolding select_provider
selected-lookup st p now base primary alternative u h = unlisted free
  where
    st' : StrategyState
    st' = clear_expired_rate_limits st now

    free : is_rate_limited st' p now ≡ false
    free = ground (arith, first_free-free st' p now primary, first_free-free st' p now alternative)

    unlisted : is_rate_limited st' p now ≡ false → lookup p st'.rate_limit_states ≡ none
    unlisted e = cleared_unlisted st p now u e

first_backoff : (base : ℕ) → base ≤ u64_max → calculate_backoff_duration 1 base ≡ from_secs base
first_backoff base h = calculate_backoff_duration-min 1 base ∙ ap from_secs (one_base base h)
  where
    one_base : (b : ℕ) → b ≤ u64_max → min (b * 1) u64_max ≡ b
    one_base b k = omega arith

-- The entry of a provider that had none, and that sent no retry-after time.
abbrev pub IsFirstLimit : Option RateLimitState → ℕ → ℕ → Type 0
IsFirstLimit o base later =
    (s : RateLimitState) × (o ≡ some s)
    × (s.consecutive_rate_limits ≡ 1)
    × (s.rate_limited_until ≡ later + from_secs base)

add_entry-first :
    (st : StrategyState) (p : String) (base later : ℕ)
    → lookup p st.rate_limit_states ≡ none
    → base ≤ u64_max
    → IsFirstLimit (lookup p (add_entry st p none base later).rate_limit_states) base later
unfolding add_entry bump_entry calculate_rate_limit_duration
add_entry-first st p base later e h = rw e (
  bump_entry none p none base later,
  lookup-insert_self p _ st.rate_limit_states,
  refl,
  ap (◌+◌ later) (first_backoff base h),
)

cleared_none :
    (st : StrategyState) (p : String) (later : ℕ)
    → IsUnique st.rate_limit_states
    → lookup p st.rate_limit_states ≡ none
    → lookup p (clear_expired_rate_limits st later).rate_limit_states ≡ none
unfolding clear_expired_rate_limits live
cleared_none st p later u e =
    retain_live-lookup p later st.rate_limit_states u ∙ ap (λ o. live o later) e

record_first :
    (st : StrategyState) (p : String) (base later : ℕ)
    → IsUnique st.rate_limit_states
    → length st.rate_limit_states < max_rate_limit_entries
    → lookup p st.rate_limit_states ≡ none
    → base ≤ u64_max
    → IsFirstLimit (lookup p (record_rate_limit st p none base later).rate_limit_states) base later
unfolding record_rate_limit
record_first st p base later u room e h =
    elim (Bool-cases (leb 900 (length st.rate_limit_states))) [
      | inl near ↦
          rw (near, cleared_fits st later room)
            (add_entry-first (clear_expired_rate_limits st later) p base later
              (cleared_none st p later u e) h)
      | inr far ↦ rw far (add_entry-first st p base later e h)
    ]

-- When the limits-alternative strategy has selected a provider, in a state with the invariant and a
-- map of limits that has room for an entry, the base delay is a u64 value, and the next record on that
-- state is a rate limit of that provider without a retry-after time, it is counted as its first and
-- lasts for the base delay, whatever limits the provider met before: the selection has cleared the
-- entry that counted them.
pub selected_backoff_is_base :
    (st : StrategyState) (p : String) (now later base : ℕ) (primary alternative : List String)
    → Inv st
    → length st.rate_limit_states < max_rate_limit_entries
    → base ≤ u64_max
    → (select_provider st (limits_alternative primary alternative base) now).1 ≡ ok p
    → let st' = (select_provider st (limits_alternative primary alternative base) now).0 in
      IsFirstLimit (lookup p (record_rate_limit st' p none base later).rate_limit_states) base later
unfolding select_provider
selected_backoff_is_base st p now later base primary alternative v room h e =
    record_first (clear_expired_rate_limits st now) p base later (clear-Inv st now v).unique
      (cleared_room st now room) (selected-lookup st p now base primary alternative v.unique e) h
