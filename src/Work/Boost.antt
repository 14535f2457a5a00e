-- ===== src/Work/Boost.antt =====
-- include/gigamonkey/work/ASICBoost.hpp: the general purpose bits of the version field. Numbers are words
-- of 32 and of 16 bits.
use gigamonkey.Base.{ℕ, ◌+◌, ◌-◌, ◌*◌, ◌/◌, ◌%◌, ◌^◌, ◌<◌, ◌≡◌, bit_and, bit_or, arith}
use gigamonkey.Base.Wide.{bit_and_low, bit_and_shifted, shifted_bit_or}

-- `Mask` and `Bits`
abbrev pub version_mask : ℕ
version_mask = 0xe000_1fff

abbrev pub bits_mask : ℕ
bits_mask = 2 ^ 32 - 1 - version_mask

unfoldable pub version : ℕ → ℕ
version v = bit_and version_mask v

unfoldable pub bits : ℕ → ℕ
bits v = bit_and v bits_mask / 2 ^ 13 % 2 ^ 16

unfoldable pub magic_number : ℕ → ℕ
magic_number v = bit_or (bit_and v 0xe000_0000 / 2 ^ 16) (bit_and v 0x1fff) % 2 ^ 16

unfoldable pub category : ℕ → ℕ → ℕ
category m b = (b * 2 ^ 13 + bit_and m 0x1fff + bit_and m 0xe000 * 2 ^ 16) % 2 ^ 32

bits_lem : (v : ℕ) → bits v ≡ v / 2 ^ 13 % 2 ^ 16
unfolding bits
bits_lem v = omega (arith, bit_and_shifted 13 v 0xffff, bit_and_low 16 (v / 2 ^ 13))

magic_number_lem : (v : ℕ) → v < 2 ^ 32 → magic_number v ≡ v / 2 ^ 29 * 2 ^ 13 + v % 2 ^ 13
unfolding magic_number
magic_number_lem v fits =
    let left : bit_and v 0xe000_0000 / 2 ^ 16 ≡ v / 2 ^ 29 * 2 ^ 13 =
      omega (arith, bit_and_shifted 29 v 7, bit_and_low 3 (v / 2 ^ 29), fits) in
    let right : bit_and v 0x1fff ≡ v % 2 ^ 13 = bit_and_low 13 v in
    let joined : bit_or (v / 2 ^ 29 * 2 ^ 13) (v % 2 ^ 13) ≡ v / 2 ^ 29 * 2 ^ 13 + v % 2 ^ 13 =
      shifted_bit_or 13 (v % 2 ^ 13) (v / 2 ^ 29) (omega arith) in
    rw (left, right, joined) (omega (arith, fits))

category_lem :
    (m b : ℕ)
    → m < 2 ^ 16
    → b < 2 ^ 16
    → category m b ≡ b * 2 ^ 13 + m % 2 ^ 13 + m / 2 ^ 13 * 2 ^ 29
unfolding category
category_lem m b fits_m fits_b =
    omega
      (arith, bit_and_low 13 m, bit_and_shifted 13 m 7, bit_and_low 3 (m / 2 ^ 13), fits_m, fits_b)

-- A version field is the category of its magic number and its general purpose bits, and these are what
-- was put into a category.
pub category-magic_number-bits :
    (v m b : ℕ)
    → v < 2 ^ 32
    → m < 2 ^ 16
    → b < 2 ^ 16
    → (category (magic_number v) (bits v) ≡ v)
      × (magic_number (category m b) ≡ m)
      × (bits (category m b) ≡ b)
category-magic_number-bits v m b fits_v fits_m fits_b =
    let c : category m b < 2 ^ 32 = omega (arith, category_lem m b fits_m fits_b, fits_m, fits_b) in
    (
      omega (
        arith,
        category_lem (magic_number v) (bits v) (omega (arith, magic_number_lem v fits_v, fits_v))
            (omega (arith, bits_lem v)),
        magic_number_lem v fits_v,
        bits_lem v,
        fits_v,
      ),
      omega (
        arith,
        magic_number_lem (category m b) c,
        category_lem m b fits_m fits_b,
        fits_m,
        fits_b,
      ),
      omega (arith, bits_lem (category m b), category_lem m b fits_m fits_b, fits_m, fits_b),
    )
