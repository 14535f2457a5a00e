-- ===== src/Sv/BigNum.antt =====
-- The integers of include/sv/big_int.h, whose arithmetic and formats are OpenSSL's: parameters.
use gigamonkey.Base.{Option, ℕ, ◌/◌, ◌%◌, Bool, true, false, List, ◌≡◌, if◌then◌else◌}
use gigamonkey.Base.Int.{ℤ, ltb_ℤ}
use gigamonkey.Sv.IntSerialization.{abs, is_negative, signed, serialize}
use gigamonkey.Sv.IntSerialization.Value.{value}

-- C++ division and remainder: the quotient goes towards 0, the remainder has the dividend's sign.
abbrev pub flip : Bool → Bool → Bool
flip true b = if b then false else true
flip false b = b

unfoldable pub quotient : ℤ → ℤ → ℤ
quotient a b = signed (flip (is_negative a) (is_negative b)) (abs a / abs b)

unfoldable pub remainder : ℤ → ℤ → ℤ
remainder a b = signed (is_negative a) (abs a % abs b)

abbrev pub eq_ℤ : ℤ → ℤ → Bool
eq_ℤ a b = if ltb_ℤ a b then false else if ltb_ℤ b a then false else true

-- `bsv::bint` with its operators, `serialize` and `deserialize`
pub record BigNum : Type 1 where
  pub Bint : Type 0
  pub bint : ℤ → Bint
  pub add : Bint → Bint → Bint
  pub subtract : Bint → Bint → Bint
  pub multiply : Bint → Bint → Bint
  -- `/=` and `%=`, which throw `big_int_error` where OpenSSL fails
  pub divide : Bint → Bint → Option Bint
  pub modulo : Bint → Bint → Option Bint
  pub negate : Bint → Bint
  pub less : Bint → Bint → Bool
  pub equal : Bint → Bint → Bool
  -- `&=` with an int64
  pub mask : Bint → ℤ → Bint
  -- the number as a `long`, for those that fit one
  pub to_long : Bint → ℤ
  pub serialize_bint : Bint → List ℕ
  pub deserialize_bint : List ℕ → Bint

-- What OpenSSL documents of them: a BIGNUM is an integer, its comparisons are those of
-- the integers, and the MPI format is sign and magnitude.
pub record BigNumLaws (b : BigNum) : Type 0 where
  pub integer : b.Bint → ℤ
  pub integer-bint : (n : ℤ) → integer (b.bint n) ≡ n
  pub integer-less : (m n : b.Bint) → b.less m n ≡ ltb_ℤ (integer m) (integer n)
  pub integer-equal : (m n : b.Bint) → b.equal m n ≡ eq_ℤ (integer m) (integer n)
  pub integer-deserialize : (bs : List ℕ) → integer (b.deserialize_bint bs) ≡ value bs
  pub serialize-integer : (m : b.Bint) → b.serialize_bint m ≡ serialize (integer m)
