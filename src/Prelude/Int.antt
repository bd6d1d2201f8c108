-- ===== src/Prelude/Int.antt =====
-- Signed integers, and the two's complement patterns of Go's int32 and int64.
use Prim.Native.Nat.{ℕ, ◌-◌, ◌%◌, ◌^◌, ◌<◌}
use mathlib.Core.Path.{◌≡◌}
use native.Mathlib.Omega.{arith}
use go_nfs_client.Prelude.Tests.{ltb, if◌then◌else◌}

-- `negsuc n` is -(n + 1).
pub data ℤ : Type 0 where
  pos : ℕ → ℤ
  negsuc : ℕ → ℤ

-- The w-bit pattern of an integer (Go's conversion `uint32(v)`, `uint64(v)`), for `m = 2 ^ w`.
abbrev pub to_pattern : ℕ → ℤ → ℕ
to_pattern m (pos n) = n % m
to_pattern m (negsuc n) = m - 1 - n % m

-- The integer that a w-bit pattern stands for (Go's `int32(w)`, `int64(w)`), for `m = 2 ^ w`.
abbrev pub of_pattern : ℕ → ℕ → ℕ → ℤ
of_pattern half m w = if ltb w half then pos w else negsuc (m - w - 1)

-- The integers that an int32 or int64 holds: from -half to half - 1.
abbrev pub Fits : ℕ → ℤ → Type 0
Fits half (pos n) = n < half
Fits half (negsuc n) = n < half

pub of_pattern-to_pattern32 :
    (v : ℤ) → Fits (2 ^ 31) v → of_pattern (2 ^ 31) (2 ^ 32) (to_pattern (2 ^ 32) v) ≡ v
of_pattern-to_pattern32 (pos n) h = ground arith
of_pattern-to_pattern32 (negsuc n) h = ground arith

pub of_pattern-to_pattern64 :
    (v : ℤ) → Fits (2 ^ 63) v → of_pattern (2 ^ 63) (2 ^ 64) (to_pattern (2 ^ 64) v) ≡ v
of_pattern-to_pattern64 (pos n) h = ground arith
of_pattern-to_pattern64 (negsuc n) h = ground arith

pub to_pattern-lt32 : (v : ℤ) → to_pattern (2 ^ 32) v < 2 ^ 32
to_pattern-lt32 (pos n) = omega arith
to_pattern-lt32 (negsuc n) = omega arith

pub to_pattern-lt64 : (v : ℤ) → to_pattern (2 ^ 64) v < 2 ^ 64
to_pattern-lt64 (pos n) = omega arith
to_pattern-lt64 (negsuc n) = omega arith
