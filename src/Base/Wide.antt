-- ===== src/Base/Wide.antt =====
-- `|` of numbers whose set bits do not meet, at every width.
use Prim.Native.Nat.{
  ℕ, zero, suc, ◌+◌, ◌-◌, ◌*◌, ◌/◌, ◌%◌, ◌^◌, ◌≤◌, ◌<◌, max, min, bit_or, bit_and,
}
use Prim.Native.Nat.{digits, bit_or-bitwise, bit_and-bitwise}
use mathlib.Core.Path.{◌≡◌, refl, ap, ◌∙◌}
use native.Mathlib.Omega.{arith}
use native.Mathlib.Nat.{
  pow-suc, div-div-eq-div-mul, div-add-mod', mod-lt, add-mul-mod_self_right, mod-eq_of_lt,
}
use native.Mathlib.Numerals.{towards_suc}

-- The recursion that the native `|` stands for, on fuel `n`.
abbrev or_digits : ℕ → ℕ → ℕ → ℕ
or_digits n a b = digits (λ c. c) max n a b

or_digits_enough : (n m a b : ℕ) → a ≤ n → a ≤ m → or_digits n a b ≡ or_digits m a b
or_digits_enough zero zero a b p q = refl
or_digits_enough (suc n) zero zero b p q = refl
or_digits_enough zero (suc m) zero b p q = refl
or_digits_enough zero (suc m) (suc a) b p q = absurd (omega arith)
or_digits_enough (suc n) zero (suc a) b p q = absurd (omega arith)
or_digits_enough (suc n) (suc m) zero b p q = refl
or_digits_enough (suc n) (suc m) (suc a) b p q =
    omega (arith, or_digits_enough n m (suc a / 2) (b / 2) (omega arith) (omega arith))

pub zero-bit_or : (b : ℕ) → bit_or 0 b ≡ b
zero-bit_or b = bit_or-bitwise 0 b

bit_or_halves : (a b : ℕ) → bit_or a b ≡ bit_or (a / 2) (b / 2) * 2 + max (a % 2) (b % 2)
bit_or_halves zero b = omega (arith, zero-bit_or b, zero-bit_or (b / 2))
bit_or_halves (suc a) b = omega (
  arith,
  bit_or-bitwise (suc a) b,
  bit_or-bitwise (suc a / 2) (b / 2),
  or_digits_enough a (suc a / 2) (suc a / 2) (b / 2) (omega arith) (omega arith),
)

times_pow_suc : (b k : ℕ) → b * 2 ^ suc k ≡ 2 * (b * 2 ^ k)
times_pow_suc b k = omega (arith, ap (λ (t : ℕ). b * t) (pow-suc 2 k))

-- `a | (b << k)` is a sum where `a` has `k` bits at most.
pub bit_or_shifted : (k a b : ℕ) → a < 2 ^ k → bit_or a (b * 2 ^ k) ≡ a + b * 2 ^ k
bit_or_shifted zero a b h =
    let e : a ≡ 0 = omega arith in rw (e, zero-bit_or (b * 2 ^ 0)) (omega arith)
bit_or_shifted (suc k) a b h = omega (
  arith,
  bit_or_halves a (b * 2 ^ suc k),
  ap (λ (t : ℕ). bit_or (a / 2) t) (half b k),
  bit_or_shifted k (a / 2) b (omega (arith, pow-suc 2 k)),
  times_pow_suc b k,
)
  where
    half : (b k : ℕ) → b * 2 ^ suc k / 2 ≡ b * 2 ^ k
    half b k = omega (arith, times_pow_suc b k)

-- 8 more bits are a factor of 256.
pow-eight : (i : ℕ) → 2 ^ (i + 8) ≡ 256 * 2 ^ i
pow-eight i = simp towards_suc (omega arith)

pub pow-bytes : (i : ℕ) → 2 ^ (8 * i) ≡ 256 ^ i
pow-bytes zero = refl
pow-bytes (suc i) =
    let e : 8 * suc i ≡ 8 * i + 8 = omega arith in
    rw (e, pow-eight (8 * i)) (omega (arith, pow-bytes i, pow-suc 256 i))

-- The recursion that the native `&` stands for, on fuel `n`.
abbrev and_digits : ℕ → ℕ → ℕ → ℕ
and_digits n a b = digits (λ c. zero) min n a b

and_digits_enough : (n m a b : ℕ) → a ≤ n → a ≤ m → and_digits n a b ≡ and_digits m a b
and_digits_enough zero zero a b p q = refl
and_digits_enough (suc n) zero zero b p q = refl
and_digits_enough zero (suc m) zero b p q = refl
and_digits_enough zero (suc m) (suc a) b p q = absurd (omega arith)
and_digits_enough (suc n) zero (suc a) b p q = absurd (omega arith)
and_digits_enough (suc n) (suc m) zero b p q = refl
and_digits_enough (suc n) (suc m) (suc a) b p q =
    omega (arith, and_digits_enough n m (suc a / 2) (b / 2) (omega arith) (omega arith))

zero-bit_and : (b : ℕ) → bit_and 0 b ≡ 0
zero-bit_and b = bit_and-bitwise 0 b

bit_and_halves : (a b : ℕ) → bit_and a b ≡ bit_and (a / 2) (b / 2) * 2 + min (a % 2) (b % 2)
bit_and_halves zero b = omega (arith, zero-bit_and b, zero-bit_and (b / 2))
bit_and_halves (suc a) b = omega (
  arith,
  bit_and-bitwise (suc a) b,
  bit_and-bitwise (suc a / 2) (b / 2),
  and_digits_enough a (suc a / 2) (suc a / 2) (b / 2) (omega arith) (omega arith),
)

and_digits_zero : (n a : ℕ) → and_digits n a 0 ≡ 0
and_digits_zero zero a = refl
and_digits_zero (suc n) zero = refl
and_digits_zero (suc n) (suc a) = omega (arith, and_digits_zero n (suc a / 2))

two_pow_pos : (k : ℕ) → 0 < 2 ^ k
two_pow_pos zero = omega arith
two_pow_pos (suc k) = omega (arith, pow-suc 2 k, two_pow_pos k)

-- `a & ((1 << k) - 1)` keeps the lowest `k` bits.
pub bit_and_low : (k a : ℕ) → bit_and a (2 ^ k - 1) ≡ a % 2 ^ k
bit_and_low zero a = omega (arith, bit_and-bitwise a 0, and_digits_zero a a)
bit_and_low (suc k) a =
    let mask : ℕ = 2 ^ suc k - 1 in
    let high : mask / 2 ≡ 2 ^ k - 1 = omega (arith, pow-suc 2 k, two_pow_pos k) in
    let low : mask % 2 ≡ 1 = omega (arith, pow-suc 2 k, two_pow_pos k) in
    omega (
      arith,
      bit_and_halves a mask,
      ap (λ (t : ℕ). bit_and (a / 2) t) high,
      low,
      bit_and_low k (a / 2),
      split_mod k a,
    )
  where
    split_mod : (k a : ℕ) → a % 2 ^ suc k ≡ a / 2 % 2 ^ k * 2 + a % 2
    split_mod k a =
        let q : ℕ = a / 2 / 2 ^ k in
        let r : ℕ = a / 2 % 2 ^ k * 2 + a % 2 in
        let whole : a ≡ r + q * 2 ^ suc k =
          omega (arith, div-add-mod' (a / 2) (2 ^ k), times_pow_suc q k) in
        let small : r < 2 ^ suc k = omega (arith, mod-lt (a / 2) (two_pow_pos k), pow-suc 2 k) in
        ap (λ n. n % 2 ^ suc k) whole ∙ add-mul-mod_self_right r q (2 ^ suc k) ∙ mod-eq_of_lt small

half_shifted : (b k : ℕ) → b * 2 ^ suc k / 2 ≡ b * 2 ^ k
half_shifted b k = omega (arith, times_pow_suc b k)

div_pow_suc : (a k : ℕ) → a / 2 / 2 ^ k ≡ a / 2 ^ suc k
div_pow_suc a k =
    let size : 2 * 2 ^ k ≡ 2 ^ suc k = omega (arith, pow-suc 2 k) in
    div-div-eq-div-mul a 2 (2 ^ k) ∙ ap (λ (t : ℕ). a / t) size

-- `a & (b << k)` looks at the bits of `a` from the `k`th on.
pub bit_and_shifted : (k a b : ℕ) → bit_and a (b * 2 ^ k) ≡ bit_and (a / 2 ^ k) b * 2 ^ k
bit_and_shifted zero a b =
    let whole : b * 2 ^ 0 ≡ b = omega arith in
    let all : a / 2 ^ 0 ≡ a = omega arith in
    ap (λ (t : ℕ). bit_and a t) whole ∙ omega (arith, ap (λ (t : ℕ). bit_and t b) all)
bit_and_shifted (suc k) a b = omega (
  arith,
  bit_and_halves a (b * 2 ^ suc k),
  ap (λ (t : ℕ). bit_and (a / 2) t) (half_shifted b k),
  bit_and_shifted k (a / 2) b,
  ap (λ (t : ℕ). bit_and t b * 2 ^ k) (div_pow_suc a k),
  times_pow_suc b k,
  times_pow_suc (bit_and (a / 2 ^ suc k) b) k,
)

or_digits_zero : (n a : ℕ) → a ≤ n → or_digits n a 0 ≡ a
or_digits_zero zero a h = omega (arith, h)
or_digits_zero (suc n) zero h = refl
or_digits_zero (suc n) (suc a) h = omega (arith, or_digits_zero n (suc a / 2) (omega arith))

bit_or-zero : (b : ℕ) → bit_or b 0 ≡ b
bit_or-zero b = omega (arith, bit_or-bitwise b 0, or_digits_zero b b (omega arith))

-- `(b << k) | a` is a sum where `a` has `k` bits at most.
pub shifted_bit_or : (k a b : ℕ) → a < 2 ^ k → bit_or (b * 2 ^ k) a ≡ b * 2 ^ k + a
shifted_bit_or zero a b h =
    let e : a ≡ 0 = omega arith in
    let whole : b * 2 ^ 0 ≡ b = omega arith in rw (e, bit_or-zero) (omega arith)
shifted_bit_or (suc k) a b h = omega (
  arith,
  bit_or_halves (b * 2 ^ suc k) a,
  ap (λ (t : ℕ). bit_or t (a / 2)) (half_shifted b k),
  shifted_bit_or k (a / 2) b (omega (arith, pow-suc 2 k)),
  times_pow_suc b k,
)
