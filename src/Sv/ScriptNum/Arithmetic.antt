-- ===== src/Sv/ScriptNum/Arithmetic.antt =====
-- src/sv/script/script_num.cpp: the numbers of both kinds are integers, which are compared, read and
-- written as such, by what is documented of big integers.
use gigamonkey.Base.{
  ℕ, ◌≤◌, ◌≡◌, refl, ap, ◌∙◌, Bool, true, false, List, [], ◌∷◌, length, All, some,
}
use gigamonkey.Base.Bytes.{IsByte}
use gigamonkey.Base.Int.{ℤ, pos, ltb_ℤ}
use gigamonkey.Sv.BigNum.{BigNum, BigNumLaws, eq_ℤ}
use gigamonkey.Sv.IntSerialization.{serialize, signed, back}
use gigamonkey.Sv.IntSerialization.Value.{value, sign, magnitude, deserialize-value}
use gigamonkey.Sv.ScriptNum.{ScriptNum, small, big, read_span, num_equal, num_less, getvch}

module _ (b : BigNum) (laws : BigNumLaws b) where
  open laws use {
    integer, integer-bint, integer-less, integer-equal, integer-deserialize, serialize-integer,
  }

  -- the integer that a number is
  abbrev pub denote : ScriptNum b → ℤ
  denote (small n) = n
  denote (big n) = integer n

  -- `operator <` compares the integers, of whatever kinds the numbers are.
  pub num_less-denote : (m n : ScriptNum b) → num_less b m n ≡ ltb_ℤ (denote m) (denote n)
  unfolding num_less
  num_less-denote (small m) (small n) = refl
  num_less-denote (big m) (big n) = integer-less m n
  num_less-denote (small m) (big n) =
      integer-less (b.bint m) n ∙ ap (λ t. ltb_ℤ t (integer n)) (integer-bint m)
  num_less-denote (big m) (small n) =
      integer-less m (b.bint n) ∙ ap (λ t. ltb_ℤ (integer m) t) (integer-bint n)

  -- `operator ==` compares the integers, of whatever kinds the numbers are.
  pub num_equal-denote : (m n : ScriptNum b) → num_equal b m n ≡ eq_ℤ (denote m) (denote n)
  unfolding num_equal
  num_equal-denote (small m) (small n) = refl
  num_equal-denote (big m) (big n) = integer-equal m n
  num_equal-denote (small m) (big n) =
      integer-equal (b.bint m) n ∙ ap (λ t. eq_ℤ t (integer n)) (integer-bint m)
  num_equal-denote (big m) (small n) =
      integer-equal m (b.bint n) ∙ ap (λ t. eq_ℤ (integer m) t) (integer-bint n)

  -- `getvch` is the one encoding of the integer, whichever kind the number is.
  pub getvch-denote : (m : ScriptNum b) → getvch b m ≡ serialize (denote m)
  unfolding getvch
  getvch-denote (small n) = refl
  getvch-denote (big n) = serialize-integer n

  -- The bytes of an operand are read as the integer that they stand for: at most eight bytes as an
  -- int64, and any number of them as a big integer.
  pub read_span-denote :
      (span : List ℕ) (big_int : Bool)
      → All IsByte span
      → (big_int ≡ false → length span ≤ 8)
      → (n : ScriptNum b) × ((read_span b span big_int ≡ some n) × (denote n ≡ value span))
  unfolding read_span value signed sign back magnitude
  read_span-denote [] true h fits = (big (b.bint (pos 0)), (refl, integer-bint (pos 0)))
  read_span-denote [] false h fits = (small (pos 0), (refl, refl))
  read_span-denote (x ∷ xs) true h fits =
      (big (b.deserialize_bint (x ∷ xs)), (refl, integer-deserialize (x ∷ xs)))
  read_span-denote (x ∷ xs) false h fits =
      (small (value (x ∷ xs)), (rw (read_span, deserialize-value x xs h (fits refl)) refl, refl))
