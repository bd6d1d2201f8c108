-- ===== src/Prelude/Bits.antt =====
-- The bits of a word, by recursion on the position: `w & (1 << k) != 0` and `w | 1 << k`.
use Prim.Native.Nat.{ℕ, zero, suc, ◌+◌, ◌*◌, ◌/◌, ◌%◌, ◌^◌, ◌<◌}
use mathlib.Core.Path.{◌≡◌, refl}
use mathlib.Core.Bool.{Bool, true, false}
use native.Mathlib.Omega.{arith}
use native.Mathlib.Nat.{pow-suc}
use go_nfs_client.Prelude.Tests.{◌==◌, if◌then◌else◌}

-- `w & (1 << k) != 0`
unfoldable pub test_bit : ℕ → ℕ → Bool
test_bit zero w = w % 2 == 1
test_bit (suc k) w = test_bit k (w / 2)

-- `w | 1 << k`
unfoldable pub set_bit : ℕ → ℕ → ℕ
set_bit zero w = w / 2 * 2 + 1
set_bit (suc k) w = set_bit k (w / 2) * 2 + w % 2

-- Setting bit `k` sets that bit and leaves every other bit alone.
pub test_bit-set_bit :
    (j k w : ℕ) → test_bit j (set_bit k w) ≡ (if j == k then true else test_bit j w)
unfolding test_bit set_bit
test_bit-set_bit zero zero w = ground arith
test_bit-set_bit zero (suc k) w = ground arith
test_bit-set_bit (suc j) zero w =
    let e : (w / 2 * 2 + 1) / 2 ≡ w / 2 = omega arith in rw e (ground arith)
test_bit-set_bit (suc j) (suc k) w =
    let e : (set_bit k (w / 2) * 2 + w % 2) / 2 ≡ set_bit k (w / 2) = omega arith in
    rw (e, test_bit-set_bit j k (w / 2)) (ground arith)

pub set_bit-lt : (n k w : ℕ) → k < n → w < 2 ^ n → set_bit k w < 2 ^ n
unfolding set_bit
set_bit-lt zero k w h lt = absurd (omega arith)
set_bit-lt (suc n) zero w h lt = omega (arith, pow-suc 2 n)
set_bit-lt (suc n) (suc k) w h lt =
    omega (arith, pow-suc 2 n, set_bit-lt n k (w / 2) (omega arith) (omega (arith, pow-suc 2 n)))

pub test_bit-zero : (k : ℕ) → test_bit k 0 ≡ false
unfolding test_bit
test_bit-zero zero = refl
test_bit-zero (suc k) = test_bit-zero k
