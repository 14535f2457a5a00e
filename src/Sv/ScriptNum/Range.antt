-- ===== src/Sv/ScriptNum/Range.antt =====
-- The int64 arithmetic of src/sv/script/script_num.cpp: what its assertions ask, and the operands of at
-- most four bytes before genesis.
use native.Mathlib.Nat.{pow-le-pow_right}
use gigamonkey.Base.{ℕ, ◌*◌, ◌^◌, ◌<◌, ◌≤◌, ◌≡◌, refl, Bool, true, false, List, [], ◌∷◌, arith}
use gigamonkey.Base.{inl, inr, ◌⊎◌, ◌↔◌, some, length, All, suc, zero}
use gigamonkey.Base.Bytes.{IsByte, pow_256}
use gigamonkey.Base.Int.{ℤ, pos, negsuc, ◌+ℤ◌, ◌-ℤ◌, ◌*ℤ◌, pos_part, neg_part}
use gigamonkey.Script.Action.{Outcome, done, throws}
use gigamonkey.Script.Error.{other}
use gigamonkey.Sv.BigNum.{BigNum}
use gigamonkey.Sv.IntSerialization.{signed, back, wrap_int64}
use gigamonkey.Sv.IntSerialization.Value.{magnitude, sign, value, deserialize-value}
use gigamonkey.Sv.ScriptNum.{
  ScriptNum, small, sum_fits, difference_fits, checked_sum, checked_difference, wrapped_product,
  int64_of_integer, read_span, num_add, num_subtract, num_multiply, combine,
}

-- A magnitude of at most 31 bits, which is what four bytes hold beside the sign.
abbrev pub IsOperand : ℤ → Type 0
IsOperand n = (pos_part n < 2 ^ 31) × (neg_part n < 2 ^ 31)

abbrev pub IsInt64 : ℤ → Type 0
IsInt64 n = (pos_part n < 2 ^ 63) × (neg_part n ≤ 2 ^ 63)

magnitude-lt :
    (b : ℕ) (bs : List ℕ) → All IsByte (b ∷ bs) → magnitude (b ∷ bs) < 128 * 256 ^ length bs
unfolding magnitude
magnitude-lt b [] h = omega arith
magnitude-lt b (c ∷ bs) (hb, h) = omega (arith, magnitude-lt c bs h, pow_256 (length bs))

signed-IsOperand : (s : Bool) (n : ℕ) → n < 2 ^ 31 → IsOperand (signed s n)
unfolding signed
signed-IsOperand true zero h = omega arith
signed-IsOperand true (suc n) h = omega arith
signed-IsOperand false n h = omega arith

small_magnitude : (bs : List ℕ) → All IsByte bs → length bs ≤ 4 → magnitude bs < 2 ^ 31
small_magnitude [] h fits = unfold magnitude in omega arith
small_magnitude (b ∷ bs) h fits =
    let p : 256 ^ length bs ≤ 256 ^ 3 = pow-le-pow_right (omega arith) {j = 3} (omega arith) in
    omega (arith, magnitude-lt b bs h)

value-IsOperand : (bs : List ℕ) → All IsByte bs → length bs ≤ 4 → IsOperand (value bs)
unfolding value
value-IsOperand bs h fits = signed-IsOperand (sign bs) (magnitude bs) (small_magnitude bs h fits)

-- A script of at most four bytes is read as the integer that it stands for.
read_span-operand :
    (b : BigNum) (span : List ℕ)
    → All IsByte span
    → length span ≤ 4
    → read_span b span false ≡ some (small (value span))
unfolding read_span value signed sign back magnitude
read_span-operand b [] h fits = refl
read_span-operand b (x ∷ xs) h fits =
    rw (read_span, deserialize-value x xs h (omega (arith, fits))) refl

product_lt : (a b : ℕ) → a < 2 ^ 31 → b < 2 ^ 31 → a * b < 2 ^ 62
product_lt a b ha hb = grind arith

operands_fit :
    (m n : ℤ) → IsOperand m → IsOperand n → IsInt64 (m +ℤ n) × IsInt64 (m -ℤ n) × IsInt64 (m *ℤ n)
unfolding ◌+ℤ◌ ◌-ℤ◌ ◌*ℤ◌
operands_fit (pos a) (pos b) hm hn = ground (arith, product_lt a b)
operands_fit (pos a) (negsuc b) hm hn = ground (arith, product_lt a (suc b))
operands_fit (negsuc a) (pos b) hm hn = ground (arith, product_lt (suc a) b)
operands_fit (negsuc a) (negsuc b) hm hn = ground (arith, product_lt (suc a) (suc b))

-- On int64s the assertion of `+=` holds just where the sum is an int64, and that of `-=` where the
-- difference is.
sum_fits-IsInt64 : (m n : ℤ) → IsInt64 m → IsInt64 n → (sum_fits m n ≡ true) ↔ IsInt64 (m +ℤ n)
unfolding sum_fits ◌+ℤ◌ ◌-ℤ◌
sum_fits-IsInt64 (pos a) (pos b) hm hn = (ground arith, ground arith)
sum_fits-IsInt64 (pos a) (negsuc b) hm hn = (ground arith, ground arith)
sum_fits-IsInt64 (negsuc a) (pos b) hm hn = (ground arith, ground arith)
sum_fits-IsInt64 (negsuc a) (negsuc b) hm hn = (ground arith, ground arith)

difference_fits-IsInt64 :
    (m n : ℤ) → IsInt64 m → IsInt64 n → (difference_fits m n ≡ true) ↔ IsInt64 (m -ℤ n)
unfolding difference_fits ◌+ℤ◌ ◌-ℤ◌
difference_fits-IsInt64 (pos a) (pos b) hm hn = (ground arith, ground arith)
difference_fits-IsInt64 (pos a) (negsuc b) hm hn = (ground arith, ground arith)
difference_fits-IsInt64 (negsuc a) (pos b) hm hn = (ground arith, ground arith)
difference_fits-IsInt64 (negsuc a) (negsuc b) hm hn = (ground arith, ground arith)

operand-IsInt64 : (n : ℤ) → IsOperand n → IsInt64 n
operand-IsInt64 n h = omega (arith, h)

int64_of_integer-IsInt64 : (n : ℤ) → IsInt64 n → int64_of_integer n ≡ n
unfolding int64_of_integer wrap_int64
int64_of_integer-IsInt64 (pos n) h = ground (arith, h)
int64_of_integer-IsInt64 (negsuc n) h = ground (arith, h)

-- `+`, `-` and `*` of two numbers of at most 31 bits and a sign end in the sum, difference and product of
-- the integers.
arithmetic_fits :
    (b : BigNum) {S : Type 0} (m n : ℤ) (s : S)
    → IsOperand m
    → IsOperand n
    → (num_add b (small m) (small n) s ≡ done (small (m +ℤ n)) s)
      × ((num_subtract b (small m) (small n) s ≡ done (small (m -ℤ n)) s)
          × (num_multiply b (small m) (small n) s ≡ done (small (m *ℤ n)) s))
unfolding num_add num_subtract num_multiply combine checked_sum checked_difference wrapped_product
arithmetic_fits b m n s hm hn =
    let (fits_sum, fits_difference, product) = operands_fit m n hm hn in
    let m64 = operand-IsInt64 m hm in
    let n64 = operand-IsInt64 n hn in
    let sum = (sum_fits-IsInt64 m n m64 n64).1 fits_sum in
    let difference = (difference_fits-IsInt64 m n m64 n64).1 fits_difference in
    (
      rw (num_add, combine, checked_sum, sum) refl,
      (
        rw (num_subtract, combine, checked_difference, difference) refl,
        rw (num_multiply, combine, wrapped_product, int64_of_integer-IsInt64 (m *ℤ n) product) refl,
      ),
    )

-- A test that decides an int64, and what an operation ends in by it.
checked_end :
    {S : Type 0} (b : BigNum) (test : Bool) (r : ℤ) (s : S) (o : Outcome S (ScriptNum b))
    → (test ≡ true) ↔ IsInt64 r
    → (test ≡ true → o ≡ done (small r) s)
    → (test ≡ false → o ≡ throws other s)
    → ((o ≡ done (small r) s) × IsInt64 r) ⊎ ((o ≡ throws other s) × ¬ IsInt64 r)
checked_end b true r s o (fits, back) good bad = inl (good refl, fits refl)
checked_end b false r s o (fits, back) good bad = inr (bad refl, λ h. ground (arith, back h))

-- On any two int64s `+=` and `-=` end in the sum and the difference of the integers where that is an
-- int64; where it is not their assertion fails.
pub num_add-IsInt64 :
    (b : BigNum) {S : Type 0} (m n : ℤ) (s : S)
    → IsInt64 m
    → IsInt64 n
    → (((num_add b (small m) (small n) s ≡ done (small (m +ℤ n)) s) × IsInt64 (m +ℤ n))
        ⊎ ((num_add b (small m) (small n) s ≡ throws other s) × ¬ IsInt64 (m +ℤ n)))
      × (((num_subtract b (small m) (small n) s ≡ done (small (m -ℤ n)) s) × IsInt64 (m -ℤ n))
          ⊎ ((num_subtract b (small m) (small n) s ≡ throws other s) × ¬ IsInt64 (m -ℤ n)))
unfolding num_add num_subtract combine checked_sum checked_difference
num_add-IsInt64 b m n s hm hn = (
  checked_end b (sum_fits m n) (m +ℤ n) s _ (sum_fits-IsInt64 m n hm hn)
      (λ e. rw (num_add, combine, checked_sum, e) refl)
      (λ e. rw (num_add, combine, checked_sum, e) refl),
  checked_end b (difference_fits m n) (m -ℤ n) s _ (difference_fits-IsInt64 m n hm hn)
      (λ e. rw (num_subtract, combine, checked_difference, e) refl)
      (λ e. rw (num_subtract, combine, checked_difference, e) refl),
)

-- Before genesis, where an operand has at most four bytes, two operands are read as numbers whose sum,
-- difference and product are those of the integers that their bytes stand for.
pub arithmetic-value :
    (b : BigNum) {S : Type 0} (x y : List ℕ) (s : S)
    → All IsByte x
    → All IsByte y
    → length x ≤ 4
    → length y ≤ 4
    → (m : ScriptNum b) × ((n : ScriptNum b) × ((read_span b x false ≡ some m)
          × ((read_span b y false ≡ some n)
              × ((num_add b m n s ≡ done (small (value x +ℤ value y)) s)
                  × ((num_subtract b m n s ≡ done (small (value x -ℤ value y)) s)
                      × (num_multiply b m n s ≡ done (small (value x *ℤ value y)) s))))))
arithmetic-value b x y s hx hy fx fy = (
  small (value x),
  (
    small (value y),
    (
      read_span-operand b x hx fx,
      (
        read_span-operand b y hy fy,
        arithmetic_fits b (value x) (value y) s (value-IsOperand x hx fx) (value-IsOperand y hy fy),
      ),
    ),
  ),
)
