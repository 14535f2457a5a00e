-- ===== src/Work/Target/Encoded.antt =====
-- src/gigamonkey/work.cpp: what the compact form keeps of a target.
use gigamonkey.Base.{
  ℕ, zero, suc, ◌+◌, ◌-◌, ◌*◌, ◌/◌, ◌%◌, ◌^◌, ◌≤◌, ◌<◌, ◌≡◌, ◌≢◌, ap, sym, ◌∙◌, false, none, some,
  arith, ltb, ◌==◌, ◌!=◌, Bool-cases, ltb→lt, inl, inr,
}
use native.Mathlib.Nat.{div-div-eq-div-mul, div-lt_iff_lt-mul, pow-le-pow_right, mod-eq_of_lt}
use mathlib.Core.Path.{subst}
use gigamonkey.Base.Wide.{pow-bytes}
use gigamonkey.Base.Bytes.{pow_256}
use gigamonkey.Work.Target.{encode, expand, expand_word, first_digit, byte_of}

pub pow_pos : (k : ℕ) → 0 < 256 ^ k
pow_pos zero = omega arith
pow_pos (suc k) = omega (arith, pow_256 k, pow_pos k)

-- A product that fits into 256 bits has few bytes.
few_bytes : (k v m j : ℕ) → m ≤ v → v * 256 ^ k < 2 ^ 256 → 2 ^ 256 ≤ m * 256 ^ j → k < j
few_bytes k v m j lo fits over = elim (Bool-cases (ltb k j)) [
  | inl less ↦ ltb→lt k j less
  | inr not_less ↦
      let more : j ≤ k = ground (arith, not_less) in
      let powers : 256 ^ j ≤ 256 ^ k = pow-le-pow_right (omega arith) more in
      let product : m * 256 ^ j ≤ v * 256 ^ k = grind (arith, powers, lo) in
      absurd (omega (arith, product, fits, over))
]

expand_word_lem :
    (k v : ℕ)
    → 1 ≤ k
    → v * 256 ^ k < 2 ^ 256
    → k < 31
    → (2 ^ 16 ≤ v → k < 30)
    → expand_word (k + 3) v false ≡ v * 256 ^ k
unfolding expand_word
expand_word_lem k v some_k fits few fewer =
    let e : k + 3 - 3 ≡ k = omega arith in
    let bytes : 2 ^ (8 * (k + 3 - 3)) ≡ 256 ^ k = ap (λ n. 2 ^ (8 * n)) e ∙ pow-bytes k in
    let whole : v * 2 ^ (8 * (k + 3 - 3)) % 2 ^ 256 ≡ v * 256 ^ k =
      ap (λ n. v * n % 2 ^ 256) bytes ∙ mod-eq_of_lt fits in
    ground (arith, whole)

-- `expand` of a normal compact: digits in their upper half, at an exponent above 3.
pub expand-encode :
    (k v : ℕ)
    → 1 ≤ k
    → 2 ^ 15 ≤ v
    → v < 2 ^ 23
    → v * 256 ^ k < 2 ^ 256
    → expand (encode (k + 3) v) ≡ v * 256 ^ k
unfolding expand encode
expand-encode k v some_k lo hi fits =
    let size : (v + (k + 3) * 2 ^ 24) / 2 ^ 24 ≡ k + 3 = omega (arith, hi) in
    let word : (v + (k + 3) * 2 ^ 24) % 2 ^ 23 ≡ v = omega (arith, hi) in
    let sign : ((v + (k + 3) * 2 ^ 24) / 2 ^ 23 % 2 == 1) ≡ false = ground (arith, hi) in
    rw (size, word, sign)
      (expand_word_lem k v some_k fits (few_bytes k v (2 ^ 15) 31 lo fits (omega arith))
        (λ h. few_bytes k v (2 ^ 16) 30 h fits (omega arith)))

-- the number above the lowest `i` bytes
pub above_lt : (n i y : ℕ) → n < y * 256 ^ i → n / 256 ^ i < y
above_lt n i y h = (div-lt_iff_lt-mul (pow_pos i)).1 h

pub lt_above : (n i y : ℕ) → n / 256 ^ i < y → n < y * 256 ^ i
lt_above n i y h = (div-lt_iff_lt-mul (pow_pos i)).0 h

shorter : (k n : ℕ) → n < 256 ^ (suc k + 3) → (byte_of n (k + 3) != 0) ≡ false → n < 256 ^ (k + 3)
shorter k n fits less =
    let size : suc k + 3 ≡ suc (k + 3) = omega arith in
    let fits' : n < 256 * 256 ^ (k + 3) =
      subst (λ m. n < m) (ap (λ m. 256 ^ m) size ∙ pow_256 (k + 3)) fits in
    let small : n / 256 ^ (k + 3) < 256 = above_lt n (k + 3) 256 fits' in
    let none_there : n / 256 ^ (k + 3) < 1 = ground (arith, less, small) in
    omega (arith, lt_above n (k + 3) 1 none_there)

pub first_digit_lem :
    (k n i : ℕ)
    → n < 256 ^ (k + 3)
    → first_digit n k ≡ some i
    → (3 ≤ i) × (n < 256 ^ suc i) × (byte_of n i ≢ 0)
unfolding first_digit
first_digit_lem zero n i fits e = ground (arith, e)
first_digit_lem (suc k) n i fits e = elim (Bool-cases (byte_of n (k + 3) != 0)) [
  | inl found ↦
      let at : k + 3 ≡ i = ground (arith, found, e) in
      let size : suc k + 3 ≡ suc i = omega (arith, at) in
      (
        omega (arith, at),
        subst (λ m. n < 256 ^ m) size fits,
        subst (λ m. byte_of n m ≢ 0) at (ground (arith, found)),
      )
  | inr less ↦ first_digit_lem k n i (shorter k n fits less) (ground (arith, less, e))
]

pub first_digit_missing : (k n : ℕ) → n < 256 ^ (k + 3) → first_digit n k ≡ none → n < 256 ^ 3
unfolding first_digit
first_digit_missing zero n fits e =
    let size : 0 + 3 ≡ 3 = omega arith in subst (λ m. n < 256 ^ m) size fits
first_digit_missing (suc k) n fits e = elim (Bool-cases (byte_of n (k + 3) != 0)) [
  | inl found ↦ absurd (ground (arith, found, e))
  | inr less ↦ first_digit_missing k n (shorter k n fits less) (ground (arith, less, e))
]

pub first_digit_lt : (k n i : ℕ) → first_digit n k ≡ some i → i < k + 3
unfolding first_digit
first_digit_lt zero n i e = ground (arith, e)
first_digit_lt (suc k) n i e = elim (Bool-cases (byte_of n (k + 3) != 0)) [
  | inl found ↦ ground (arith, found, e)
  | inr less ↦
      let before : i < k + 3 = first_digit_lt k n i (ground (arith, less, e)) in
      omega (arith, before)
]

-- The digits from an index on, by the number above the bytes below them.
pub next_byte : (n j : ℕ) → n / 256 ^ suc j ≡ n / 256 ^ j / 256
next_byte n j =
    let size : 256 ^ suc j ≡ 256 ^ j * 256 = omega (arith, pow_256 j) in
    ap (λ m. n / m) size ∙ sym (div-div-eq-div-mul n (256 ^ j) 256)
