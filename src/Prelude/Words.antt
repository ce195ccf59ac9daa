-- ===== src/Prelude/Words.antt =====
-- Machine arithmetic of the release build: unsigned words wrap.
use Prim.Native.Nat.{ℕ, ◌+◌, ◌-◌, ◌%◌, ◌^◌, ◌≤◌}
use mathlib.Core.Path.{◌≡◌}
use native.Mathlib.Omega.{arith}
use ca_op.Prelude.Tests.{leb, if◌then◌else◌}

-- `x + 1` on a `u32` and on a `u64`.
abbrev pub inc_u32 : ℕ → ℕ
inc_u32 x = (x + 1) % 2 ^ 32

abbrev pub inc_u64 : ℕ → ℕ
inc_u64 x = (x + 1) % 2 ^ 64

-- `a + b` on a `usize`.
abbrev pub add_usize : ℕ → ℕ → ℕ
add_usize a b = (a + b) % 2 ^ 64

-- `a - b` on a `usize`.
abbrev pub sub_usize : ℕ → ℕ → ℕ
sub_usize a b = if leb b a then a - b else (a + 2 ^ 64) - b

pub sub_usize_le : (a b : ℕ) → b ≤ a → sub_usize a b ≡ a - b
sub_usize_le a b h = ground arith

pub sub_usize_self : (a : ℕ) → sub_usize a a ≡ 0
sub_usize_self a = ground arith
