-- ===== src/Base/Machine.antt =====
-- Checked arithmetic on `u32`, `u64` and `usize`, which is taken to be 64 bits wide.
use Prim.Native.Nat.{ℕ, ◌+◌, ◌*◌, ◌-◌, ◌≤◌}
use mathlib.Core.Path.{◌≡◌}
use mathlib.Core.Bool.{Bool}
use mathlib.Core.Option.{Option, none, some}
use native.Mathlib.Omega.{arith}
use greatgramma_rust.Base.Tests.{leb, if◌then◌else◌}

abbrev pub u32_max : ℕ
u32_max = 0xffff_ffff

abbrev pub u64_max : ℕ
u64_max = 0xffff_ffff_ffff_ffff

abbrev pub usize_max : ℕ
usize_max = u64_max

unfoldable pub checked_add : ℕ → ℕ → Option ℕ
checked_add a b = if leb (a + b) usize_max then some (a + b) else none

unfoldable pub checked_mul : ℕ → ℕ → Option ℕ
checked_mul a b = if leb (a * b) usize_max then some (a * b) else none

unfoldable pub checked_sub : ℕ → ℕ → Option ℕ
checked_sub a b = if leb b a then some (a - b) else none

-- `u32::try_from`.
unfoldable pub try_u32 : ℕ → Option ℕ
try_u32 n = if leb n u32_max then some n else none

pub checked_add-eq-some : (a b : ℕ) → a + b ≤ usize_max → checked_add a b ≡ some (a + b)
unfolding checked_add
checked_add-eq-some a b h = ground arith

pub checked_mul-eq-some : (a b : ℕ) → a * b ≤ usize_max → checked_mul a b ≡ some (a * b)
unfolding checked_mul
checked_mul-eq-some a b h = ground arith

pub try_u32-eq-some : (n m : ℕ) → try_u32 n ≡ some m → m ≡ n
unfolding try_u32
try_u32-eq-some n m h = ground arith

-- An allocator answers whether a reservation for that many elements succeeds.
abbrev pub Allocator : Type 0
Allocator = ℕ → Bool
