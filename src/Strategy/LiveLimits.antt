-- ===== src/Strategy/LiveLimits.antt =====
-- The map of rate limits once the expired entries are cleared.
use lunaroute.Prelude.{
  ℕ, ◌≤◌, ◌≡◌, refl, ap, ◌∙◌, inl, inr, String, Option, none, some, List, [], ◌∷◌, arith,
  if◌then◌else◌, length, Bool-cases, str_eq_iff,
}
use lunaroute.Strategy.{RateLimitState, is_expired, retain_live}
use lunaroute.Prelude.Maps.{lookup, IsUnique}

-- What is left of an entry once the expired ones are cleared.
unfoldable pub live : Option RateLimitState → ℕ → Option RateLimitState
live none now = none
live (some s) now = if is_expired s now then none else some s

pub retain_live-lookup :
    (k : String) (now : ℕ) (m : List (String × RateLimitState))
    → IsUnique m
    → lookup k (retain_live now m) ≡ live (lookup k m) now
unfolding lookup retain_live live
retain_live-lookup k now [] u = refl
retain_live-lookup k now ((j, s) ∷ m) u = ground (arith, str_eq_iff j k, retain_live-lookup k now m)

pub retain_live-IsUnique :
    (now : ℕ) (m : List (String × RateLimitState)) → IsUnique m → IsUnique (retain_live now m)
unfolding retain_live live
retain_live-IsUnique now [] u = tt
retain_live-IsUnique now ((j, s) ∷ m) u = elim (Bool-cases (is_expired s now)) [
  | inl over ↦ rw over (retain_live-IsUnique now m u.1)
  | inr running ↦
      rw running
        (retain_live-lookup j now m u.1 ∙ ap (λ o. live o now) u.0, retain_live-IsUnique now m u.1)
]

pub length-retain_live :
    (now : ℕ) (m : List (String × RateLimitState)) → length (retain_live now m) ≤ length m
unfolding retain_live live
length-retain_live now [] = omega arith
length-retain_live now ((j, s) ∷ m) = ground (arith, length-retain_live now m)
