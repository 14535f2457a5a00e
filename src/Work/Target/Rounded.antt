-- ===== src/Work/Target/Rounded.antt =====
-- src/gigamonkey/work.cpp: the compact form of a 256-bit number keeps its first digits.
use gigamonkey.Base.{
  ℕ, zero, suc, ◌+◌, ◌-◌, ◌*◌, ◌/◌, ◌%◌, ◌^◌, ◌≤◌, ◌<◌, ◌≡◌, ◌≢◌, refl, ap, ◌∙◌, Bool, none, arith,
  ltb, leb, ◌==◌, Bool-cases, Option-cases, ltb→lt, inl, inr,
}
use native.Mathlib.Nat.{zero-div, div-mul-le_self, mul-div_cancel, pow-le-pow_right}
use mathlib.Core.Path.{subst}
use gigamonkey.Base.Bytes.{pow_256}
use gigamonkey.Work.Target.{encode, expand, expand_word, first_digit, copied, of_uint256, byte_of}
use gigamonkey.Work.Target.Encoded.{
  expand-encode, first_digit_lem, first_digit_lt, first_digit_missing, next_byte, above_lt,
  lt_above, pow_pos,
}

-- A normal compact: an exponent above 3, and digits whose first byte is there and has no sign bit, or
-- is zero before a byte that has one.
unfoldable pub IsNormal : ℕ → ℕ → Type 0
IsNormal k v = (1 ≤ k) × ((2 ^ 15 ≤ v) × (v < 2 ^ 23))

copied_negative :
    (n j : ℕ)
    → n / 256 ^ j < 2 ^ 24
    → 2 ^ 23 ≤ n / 256 ^ j
    → j + 4 < 256
    → copied n (suc (suc j)) (j + 3) ≡ encode (suc j + 3) (n / 256 ^ suc j)
unfolding copied encode
copied_negative n j fits big few =
    ground (arith, next_byte n j, next_byte n (suc j), fits, big, few)

copied_positive :
    (n j : ℕ) → n / 256 ^ j < 2 ^ 23 → copied n (suc (suc j)) (j + 3) ≡ encode (j + 3) (n / 256 ^ j)
unfolding copied encode
copied_positive n j fits = ground (arith, next_byte n j, next_byte n (suc j), fits)

-- what is copied from a first digit that is not 0
copied-IsNormal :
    (n j : ℕ)
    → 1 ≤ j
    → j < 30
    → n / 256 ^ j < 2 ^ 24
    → byte_of n (suc (suc j)) ≢ 0
    → (k : ℕ) × ((copied n (suc (suc j)) (j + 3) ≡ encode (k + 3) (n / 256 ^ k))
        × IsNormal k (n / 256 ^ k))
unfolding IsNormal
copied-IsNormal n j lo hi fits there =
    let first : 2 ^ 16 ≤ n / 256 ^ j =
      ground (arith, next_byte n j, next_byte n (suc j), fits, there) in
    elim (Bool-cases (ltb (n / 256 ^ j) (2 ^ 23))) [
      | inl low ↦ (
        j,
        (
          copied_positive n j (ltb→lt (n / 256 ^ j) (2 ^ 23) low),
          (lo, (omega (arith, first), ltb→lt (n / 256 ^ j) (2 ^ 23) low)),
        ),
      )
      | inr high ↦
          let big : 2 ^ 23 ≤ n / 256 ^ j = ground (arith, high) in
          (
            suc j,
            (
              copied_negative n j fits big (omega (arith, hi)),
              (
                omega (arith, lo),
                (omega (arith, next_byte n j, big), omega (arith, next_byte n j, fits)),
              ),
            ),
          )
    ]

pub HasRounded : ℕ → ℕ → Type 0
HasRounded n c = (k : ℕ) × ((c ≡ encode (k + 3) (n / 256 ^ k)) × IsNormal k (n / 256 ^ k))

copied_at :
    (i n : ℕ)
    → 3 ≤ i
    → i < 32
    → n < 256 ^ suc i
    → byte_of n i ≢ 0
    → HasRounded n (copied n i (i + 1))
unfolding HasRounded
copied_at zero n lo hi fits there = absurd (omega (arith, lo))
copied_at (suc zero) n lo hi fits there = absurd (omega (arith, lo))
copied_at (suc (suc j)) n lo hi fits there =
    let top : suc (suc j) + 1 ≡ j + 3 = omega arith in
    let size : 256 ^ suc (suc (suc j)) ≡ 2 ^ 24 * 256 ^ j =
      omega (arith, pow_256 j, pow_256 (suc j), pow_256 (suc (suc j))) in
    let few : n / 256 ^ j < 2 ^ 24 = above_lt n j (2 ^ 24) (subst (λ m. n < m) size fits) in
    rw (top) (copied-IsNormal n j (omega (arith, lo)) (omega (arith, hi)) few there)

-- A number that has a digit above its third is rounded down to its first digits.
pub of_uint256-HasRounded :
    (unset n : ℕ) → 2 ^ 24 ≤ n → n < 2 ^ 256 → HasRounded n (of_uint256 unset n)
unfolding of_uint256
of_uint256-HasRounded unset n lo hi = elim (Option-cases (first_digit n 29)) [
  | inl e ↦ absurd (omega (arith, lo, first_digit_missing 29 n hi e))
  | inr (i, e) ↦
      let (three, fits, there) = first_digit_lem 29 n i hi e in
      rw (e, of_uint256) (copied_at i n three (first_digit_lt 29 n i e) fits there)
]

-- The exponent of a number's normal form is the greatest that leaves enough digits.
most : (n j k : ℕ) → n < 2 ^ 23 * 256 ^ k → 2 ^ 15 * 256 ^ j ≤ n → j ≤ k
most n j k few enough = elim (Bool-cases (leb j k)) [
  | inl at_most ↦ ground (arith, at_most)
  | inr not_less ↦
      let more : suc k ≤ j = ground (arith, not_less) in
      let powers : 256 ^ suc k ≤ 256 ^ j = pow-le-pow_right (omega arith) more in
      absurd (omega (arith, pow_256 k, powers, few, enough))
]

at_least : (n k : ℕ) → 2 ^ 15 ≤ n / 256 ^ k → 2 ^ 15 * 256 ^ k ≤ n
at_least n k enough =
    let product : 2 ^ 15 * 256 ^ k ≤ n / 256 ^ k * 256 ^ k = grind (arith, enough) in
    omega (arith, product, div-mul-le_self n (256 ^ k))

-- Where a number has a digit above its third, its compact form stands for the number with all but its
-- first digits set to 0: at least 15 bits of it are kept.
pub expand-of_uint256 :
    (unset n : ℕ)
    → 2 ^ 24 ≤ n
    → n < 2 ^ 256
    → (k : ℕ) × ((expand (of_uint256 unset n) ≡ n / 256 ^ k * 256 ^ k) × (2 ^ 15 ≤ n / 256 ^ k))
unfolding HasRounded IsNormal
expand-of_uint256 unset n lo hi =
    let (k, (e, (some_k, (low, high)))) = of_uint256-HasRounded unset n lo hi in
    (
      k,
      (
        ap expand e
            ∙ expand-encode k (n / 256 ^ k) some_k low high
                (omega (arith, div-mul-le_self n (256 ^ k), hi)),
        low,
      ),
    )

-- A normal compact whose target has a digit above its third, and fits into 256 bits, is the compact of
-- its target.
pub of_uint256-expand-encode :
    (unset k v : ℕ)
    → IsNormal k v
    → 2 ^ 24 ≤ v * 256 ^ k
    → v * 256 ^ k < 2 ^ 256
    → of_uint256 unset (expand (encode (k + 3) v)) ≡ encode (k + 3) v
unfolding HasRounded IsNormal
of_uint256-expand-encode unset k v (some_k, (low, high)) large fits =
    let (j, (e, (some_j, (enough, few)))) = of_uint256-HasRounded unset (v * 256 ^ k) large fits in
    let whole : v * 256 ^ k / 256 ^ k ≡ v = mul-div_cancel v (pow_pos k) in
    let lo_j : j ≤ k =
      most (v * 256 ^ k) j k (lt_above (v * 256 ^ k) k (2 ^ 23) (omega (arith, whole, high)))
        (at_least (v * 256 ^ k) j enough) in
    let lo_k : k ≤ j =
      most (v * 256 ^ k) k j (lt_above (v * 256 ^ k) j (2 ^ 23) few)
        (at_least (v * 256 ^ k) k (omega (arith, whole, low))) in
    let same : j ≡ k = omega (arith, lo_j, lo_k) in
    ap (of_uint256 unset) (expand-encode k v some_k low high fits)
    ∙ e
    ∙ ap (λ m. encode (m + 3) (v * 256 ^ k / 256 ^ m)) same
    ∙ ap (encode (k + 3)) whole

no_byte : (n i : ℕ) → n < 2 ^ 24 → byte_of n (i + 3) ≡ 0
no_byte n i few =
    let at_least_3 : 3 ≤ i + 3 = omega arith in
    let powers : 256 ^ 3 ≤ 256 ^ (i + 3) = pow-le-pow_right (omega arith) at_least_3 in
    let nothing : n / 256 ^ (i + 3) < 1 = above_lt n (i + 3) 1 (omega (arith, few, powers)) in
    omega (arith, nothing)

first_digit_small : (k n : ℕ) → n < 2 ^ 24 → first_digit n k ≡ none
unfolding first_digit
first_digit_small zero n few = refl
first_digit_small (suc k) n few = ground (arith, no_byte n k few, first_digit_small k n few)

expand_word_zero : (size : ℕ) (negative : Bool) → expand_word size 0 negative ≡ 0
unfolding expand_word
expand_word_zero size negative =
    let small : 0 / 2 ^ (8 * (3 - size)) ≡ 0 = zero-div (2 ^ (8 * (3 - size))) in
    let large : 0 * 2 ^ (8 * (size - 3)) % 2 ^ 256 ≡ 0 = omega arith in ground (arith, small, large)

expand_zero : (e : ℕ) → expand (e * 2 ^ 24) ≡ 0
unfolding expand
expand_zero e =
    let word : e * 2 ^ 24 % 2 ^ 23 ≡ 0 = omega arith in
    ap (λ w. expand_word (e * 2 ^ 24 / 2 ^ 24) w (e * 2 ^ 24 / 2 ^ 23 % 2 == 1)) word
    ∙ expand_word_zero (e * 2 ^ 24 / 2 ^ 24) (e * 2 ^ 24 / 2 ^ 23 % 2 == 1)

copied_small : (unset n : ℕ) → n < 2 ^ 24 → copied n 29 unset ≡ unset * 2 ^ 24
unfolding copied encode
copied_small unset n few = ground (arith, no_byte n 26 few, no_byte n 25 few, no_byte n 24 few)

-- A number without a digit above its third has no digits in its compact form, whose target is 0.
pub of_uint256_small : (unset n : ℕ) → n < 2 ^ 24 → expand (of_uint256 unset n) ≡ 0
unfolding of_uint256
of_uint256_small unset n few =
    rw (first_digit_small 29 n few, of_uint256)
      (ap expand (copied_small unset n few) ∙ expand_zero unset)
