-- ===== src/Strategy/Limits.antt =====
-- The limits-alternative strategy: the first provider in order that is not rate-limited.
use lunaroute.Prelude.{
  ℕ, ◌≡◌, refl, ap, ◌∙◌, ◌⊎◌, inl, inr, true, false, String, none, some, List, [], ◌∷◌, ◌++◌, arith,
  All, Bool-cases, Result, ok, err,
}
use lunaroute.Strategy.{
  limits_alternative, StrategyError, all_providers_rate_limited, StrategyState,
  clear_expired_rate_limits, is_rate_limited, first_free, select_provider,
}
use lunaroute.Prelude.Maps.{IsUnique}
use lunaroute.Strategy.{or_else, ok_or}
use lunaroute.Strategy.LiveLimits.{live, retain_live-lookup}

-- Clearing the expired entries changes no answer about who is limited.
cleared_same :
    (st : StrategyState) (p : String) (now : ℕ)
    → IsUnique st.rate_limit_states
    → is_rate_limited (clear_expired_rate_limits st now) p now ≡ is_rate_limited st p now
unfolding is_rate_limited clear_expired_rate_limits live
cleared_same st p now u = rw (retain_live-lookup p now st.rate_limit_states u) (ground arith)

-- The provider is rate-limited now.
abbrev pub IsLimited : StrategyState → ℕ → String → Type 0
IsLimited st now p = is_rate_limited st p now ≡ true

-- The list has a first provider that is free, with only limited ones before it.
abbrev pub FirstFree : StrategyState → ℕ → List String → String → Type 0
FirstFree st now ps p =
    (xs : List String) × (ys : List String) × (ps ≡ xs ++ p ∷ ys)
    × All (IsLimited st now) xs
    × (is_rate_limited st p now ≡ false)

first_free_cases :
    (st : StrategyState) (now : ℕ) (ps : List String)
    → ((p : String) × (first_free st ps now ≡ some p) × FirstFree st now ps p)
      ⊎ ((first_free st ps now ≡ none) × All (IsLimited st now) ps)
unfolding first_free
first_free_cases st now [] = inr (refl, tt)
first_free_cases st now (p ∷ ps) = elim (Bool-cases (is_rate_limited st p now)) [
  | inr free ↦ inl (p, rw free, ([], ps, refl, tt, free))
  | inl limited ↦ elim (first_free_cases st now ps) [
    | inl (q, e, (xs, ys, split, before, free)) ↦
        inl (q, rw limited e, (p ∷ xs, ys, ap (◌∷◌ p) split, (limited, before), free))
    | inr (e, rest) ↦ inr (rw limited e, (limited, rest))
  ]
]

first_free-cleared :
    (st : StrategyState) (now : ℕ) (ps : List String)
    → IsUnique st.rate_limit_states
    → first_free (clear_expired_rate_limits st now) ps now ≡ first_free st ps now
unfolding first_free
first_free-cleared st now [] u = refl
first_free-cleared st now (p ∷ ps) u =
    rw (cleared_same st p now u, first_free-cleared st now ps u) refl

first_free-append :
    (st : StrategyState) (now : ℕ) (ps qs : List String)
    → or_else (first_free st ps now) (first_free st qs now) ≡ first_free st (ps ++ qs) now
unfolding first_free or_else
first_free-append st now [] qs = refl
first_free-append st now (p ∷ ps) qs = ground (arith, first_free-append st now ps qs)

-- The outcome of a selection among the providers, primaries first.
abbrev pub Selects : StrategyState → ℕ → List String → Result StrategyError String → Type 0
Selects st now ps r =
    ((p : String) × (r ≡ ok p) × FirstFree st now ps p)
    ⊎ ((r ≡ err all_providers_rate_limited) × All (IsLimited st now) ps)

select_limits-result :
    (st : StrategyState) (now base : ℕ) (primary alternative : List String)
    → IsUnique st.rate_limit_states
    → (select_provider st (limits_alternative primary alternative base) now).1
      ≡ ok_or all_providers_rate_limited (first_free st (primary ++ alternative) now)
unfolding select_provider
select_limits-result st now base primary alternative u =
    rw
      (
        first_free-cleared st now primary u,
        first_free-cleared st now alternative u,
        first_free-append st now primary alternative,
      )
      refl

-- The limits-alternative strategy selects the first provider, primaries before alternatives, that
-- is not rate-limited at the time of the call, and fails exactly when all of them are.
pub select_limits-Selects :
    (st : StrategyState) (now base : ℕ) (primary alternative : List String)
    → IsUnique st.rate_limit_states
    → Selects st now
        (primary ++ alternative)
        (select_provider st (limits_alternative primary alternative base) now).1
unfolding ok_or
select_limits-Selects st now base primary alternative u =
    elim (first_free_cases st now (primary ++ alternative)) [
      | inl (p, e, first) ↦ inl (
        p,
        select_limits-result st now base primary alternative u
            ∙ ap (ok_or all_providers_rate_limited) e,
        first,
      )
      | inr (e, limited) ↦ inr (
        select_limits-result st now base primary alternative u
            ∙ ap (ok_or all_providers_rate_limited) e,
        limited,
      )
    ]

limited-first_free :
    (st : StrategyState) (now : ℕ) (ps : List String)
    → All (IsLimited st now) ps
    → first_free st ps now ≡ none
unfolding first_free
limited-first_free st now [] a = refl
limited-first_free st now (p ∷ ps) (h, a) = rw h (limited-first_free st now ps a)

-- When all the providers are limited, the selection fails.
pub select_limits-exhausted :
    (st : StrategyState) (now base : ℕ) (primary alternative : List String)
    → IsUnique st.rate_limit_states
    → All (IsLimited st now) (primary ++ alternative)
    → (select_provider st (limits_alternative primary alternative base) now).1
      ≡ err all_providers_rate_limited
unfolding ok_or
select_limits-exhausted st now base primary alternative u limited =
    select_limits-result st now base primary alternative u
    ∙ ap (ok_or all_providers_rate_limited)
        (limited-first_free st now (primary ++ alternative) limited)
