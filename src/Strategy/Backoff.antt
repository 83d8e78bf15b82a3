-- ===== src/Strategy/Backoff.antt =====
-- The exponential backoff.
use lunaroute.Prelude.{
  ℕ, zero, suc, ◌+◌, ◌-◌, ◌*◌, ◌^◌, ◌≡◌, ap, inl, inr, arith, leb, if◌then◌else◌, Bool-cases,
}
use lunaroute.Prelude.Words.{u64_max, saturating_mul}
use lunaroute.Strategy.{calculate_backoff_duration, from_secs}
use Prim.Native.Nat.{min}

saturating_mul-min :
    (base p : ℕ)
    → saturating_mul u64_max base (if leb p u64_max then p else u64_max) ≡ min (base * p) u64_max
saturating_mul-min zero p = ground arith
saturating_mul-min (suc b) p =
    let product : suc b * p ≡ p + b * p = omega arith in
    elim (Bool-cases (leb p u64_max)) [
      | inl small ↦ rw small (ground arith)
      | inr large ↦ rw large (ground arith)
    ]

-- The backoff is the base delay doubled for each further limit, up to the largest u64 of seconds.
pub calculate_backoff_duration-min :
    (n base : ℕ) → calculate_backoff_duration n base ≡ from_secs (min (base * 2 ^ (n - 1)) u64_max)
unfolding calculate_backoff_duration
calculate_backoff_duration-min n base = ap from_secs (saturating_mul-min base (2 ^ (n - 1)))
