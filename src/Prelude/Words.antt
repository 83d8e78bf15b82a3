-- ===== src/Prelude/Words.antt =====
-- Rust's machine integers u32, u64 and usize (64 bits) as bounded natural numbers.
use Prim.Native.Nat.{ℕ, ◌+◌, ◌*◌}
use mathlib.Core.Option.{Option, none, some}
use lunaroute.Prelude.Tests.{leb, if◌then◌else◌}

abbrev pub u32_max : ℕ
u32_max = 4_294_967_295

abbrev pub u64_max : ℕ
u64_max = 18_446_744_073_709_551_615

abbrev pub u32_size : ℕ
u32_size = 4_294_967_296

abbrev pub u64_size : ℕ
u64_size = 18_446_744_073_709_551_616

-- `x.saturating_add(y)` at the width whose largest value is `top`.
abbrev pub saturating_add : ℕ → ℕ → ℕ → ℕ
saturating_add top x y = if leb (x + y) top then x + y else top

-- `x.saturating_mul(y)`.
abbrev pub saturating_mul : ℕ → ℕ → ℕ → ℕ
saturating_mul top x y = if leb (x * y) top then x * y else top

-- `x.checked_add(y)`.
abbrev pub checked_add : ℕ → ℕ → ℕ → Option ℕ
checked_add top x y = if leb (x + y) top then some (x + y) else none
