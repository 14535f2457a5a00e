-- ===== src/Base/Bytes.antt =====
-- Fixed-width little-endian numbers as bytes: `uint16_little`, `uint32_little`, `uint64_little`.
use Prim.Native.Nat.{ℕ, zero, suc, ◌+◌, ◌*◌, ◌/◌, ◌%◌, ◌^◌, ◌≤◌, ◌<◌}
use mathlib.Core.Path.{◌≡◌, refl, ap}
use mathlib.Core.List.{List, [], ◌∷◌, ◌++◌}
use native.Mathlib.Omega.{arith}
use native.Mathlib.Nat.{pow-suc, mul_comm}
use gigamonkey.Base.Lists.{length, All}

abbrev pub IsByte : ℕ → Type 0
IsByte b = b < 256

-- The `k` bytes of `x % 256 ^ k`, lowest first.
unfoldable pub to_little : ℕ → ℕ → List ℕ
to_little zero x = []
to_little (suc k) x = x % 256 ∷ to_little k (x / 256)

-- The number that bytes stand for, lowest first.
unfoldable pub from_little : List ℕ → ℕ
from_little [] = 0
from_little (b ∷ bs) = b + 256 * from_little bs

pub length-to_little : (k x : ℕ) → length (to_little k x) ≡ k
unfolding to_little
length-to_little zero x = refl
length-to_little (suc k) x = ap suc (length-to_little k (x / 256))

pub to_little-IsByte : (k x : ℕ) → All IsByte (to_little k x)
unfolding to_little
to_little-IsByte zero x = tt
to_little-IsByte (suc k) x = (omega arith, to_little-IsByte k (x / 256))

pub pow_256 : (k : ℕ) → 256 ^ suc k ≡ 256 * 256 ^ k
pow_256 k = rw pow-suc (mul_comm _ 256)

pub digit_fits : (r d i : ℕ) → d < 256 → r < 256 ^ i → r + d * 256 ^ i < 256 ^ suc i
digit_fits r d i hd hr =
    let h : d * 256 ^ i ≤ 255 * 256 ^ i = grind arith in omega (arith, pow_256 i)

pub from_little-to_little : (k x : ℕ) → x < 256 ^ k → from_little (to_little k x) ≡ x
unfolding to_little from_little
from_little-to_little zero x h = omega arith
from_little-to_little (suc k) x h =
    omega (arith, from_little-to_little k (x / 256) (omega (arith, pow_256 k)))

pub from_little-lt : (bs : List ℕ) → All IsByte bs → from_little bs < 256 ^ length bs
unfolding from_little
from_little-lt [] h = omega arith
from_little-lt (b ∷ bs) (hb, h) = omega (arith, from_little-lt bs h, pow_256 (length bs))

pub from_little-append :
    (xs ys : List ℕ) → from_little (xs ++ ys) ≡ from_little xs + 256 ^ length xs * from_little ys
unfolding from_little
from_little-append [] ys = omega arith
from_little-append (x ∷ xs) ys =
    omega
      (arith, from_little-append xs ys, ap (λ (t : ℕ). t * from_little ys) (pow_256 (length xs)))

pub to_little-from_little :
    (bs : List ℕ) → All IsByte bs → to_little (length bs) (from_little bs) ≡ bs
unfolding to_little from_little
to_little-from_little [] all = refl
to_little-from_little (b ∷ bs) (byte, all) =
    let low : (b + 256 * from_little bs) % 256 ≡ b = omega (arith, byte) in
    let high : (b + 256 * from_little bs) / 256 ≡ from_little bs = omega (arith, byte) in
    rw (low, high, to_little-from_little bs all) refl
