-- ===== src/Work/Target.antt =====
-- include/gigamonkey/work/target.hpp and src/gigamonkey/work.cpp: compact targets. A `compact` is its
-- uint32, and a uint256 a number below 2 ^ 256. Difficulties are floating-point numbers and are left
-- out.
pub mod Encoded
pub mod Rounded
use gigamonkey.Base.{
  ℕ, zero, suc, ◌+◌, ◌-◌, ◌*◌, ◌/◌, ◌%◌, ◌^◌, Bool, true, false, Option, none, some, ltb, leb, ◌==◌,
  ◌!=◌, if◌then◌else◌, ◌&&◌, ◌||◌, bit_and,
}

-- `compact::encode`: three bytes of digits, and the exponent
unfoldable pub encode : ℕ → ℕ → ℕ
encode e v = v + e * 2 ^ 24

unfoldable pub exponent : ℕ → ℕ
exponent c = c / 2 ^ 24

-- `& 0x00FFFFFF`
unfoldable pub digits : ℕ → ℕ
digits c = c % 2 ^ 24

abbrev pub min : ℕ
min = encode 3 0x0001

abbrev pub max : ℕ
max = encode 33 0xffff

-- `expand`, with `c & 0x007fffff` and `c & 0x00800000` written out
unfoldable pub expand_word : ℕ → ℕ → Bool → ℕ
expand_word size word negative =
    let small = word / 2 ^ (8 * (3 - size)) in
    let large = word * 2 ^ (8 * (size - 3)) % 2 ^ 256 in
    let w = if leb size 3 then small else word in
    if w != 0 && negative
    then 0
    else if w != 0 && (ltb 34 size || (ltb 0xff w && ltb 33 size || ltb 0xffff w && ltb 32 size))
    then 0
    else if leb size 3
    then small
    else large

unfoldable pub expand : ℕ → ℕ
unfolding expand_word
expand c = expand_word (c / 2 ^ 24) (c % 2 ^ 23) (c / 2 ^ 23 % 2 == 1)

-- `compact::valid`
unfoldable pub is_valid : ℕ → Bool
is_valid c = expand c != 0

-- `data [i]`
abbrev pub byte_of : ℕ → ℕ → ℕ
byte_of n i = n / 256 ^ i % 256

-- the loop of `compact (uint256)`, which looks at the digits from 31 down to 3
unfoldable pub first_digit : ℕ → ℕ → Option ℕ
first_digit n zero = none
first_digit n (suc k) = if byte_of n (k + 3) != 0 then some (k + 3) else first_digit n k

-- what the constructor copies from the first digit on
unfoldable pub copied : ℕ → ℕ → ℕ → ℕ
copied n first exponent =
    if byte_of n first / 128 == 1
    then encode ((exponent + 1) % 256) (byte_of n first * 2 ^ 8 + byte_of n (first - 1))
    else encode exponent
        (byte_of n first * 2 ^ 16 + byte_of n (first - 1) * 2 ^ 8 + byte_of n (first - 2))

-- `compact (uint256)`. Where none of the digits is there, the exponent is not set, and is what the
-- memory has; `first_digit_to_copy` is then 29.
unfoldable pub of_uint256 : ℕ → ℕ → ℕ
of_uint256 unset n = elim (first_digit n 29) [
  | none ↦ copied n 29 unset
  | some i ↦ copied n i (i + 1)
]
