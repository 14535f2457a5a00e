-- ===== src/Sv/ScriptNum.antt =====
-- include/sv/script/script_num.h and src/sv/script/script_num.cpp: a script number is an int64 or a
-- big integer, by the rules before and after genesis. The int64 is its integer: `+=` and `-=` assert that
-- their result is an int64, and what else overflows wraps around. A failing assertion, after which
-- the process ends, is an exception that nothing tells apart.
pub mod Range
pub mod Arithmetic
pub mod RoundTrip
use Prim.Native.Nat.{bit_and}
use gigamonkey.Base.{ℕ, zero, suc, ◌+◌, ◌-◌, ◌^◌, Bool, true, false, List, [], ◌∷◌, length}
use gigamonkey.Base.{◌%◌, ◌||◌, Option, none, some, leb, ltb, if◌then◌else◌, not, ◌&&◌}
use gigamonkey.Base.Int.{ℤ, pos, negsuc, ◌+ℤ◌, ◌-ℤ◌, ◌*ℤ◌, ltb_ℤ, pos_part}
use gigamonkey.Script.Action.{Action, Outcome, done, throws}
use gigamonkey.Script.Error.{
  scriptnum_overflow_error, scriptnum_minencode_error, big_int_error, other,
}
use gigamonkey.Sv.BigNum.{BigNum, quotient, remainder, eq_ℤ}
use gigamonkey.Sv.IntSerialization.{serialize, deserialize, wrap_int64, is_minimally_encoded}

-- the limits of an int64, and what the assertions of `+=` and `-=` ask
abbrev int64_max : ℤ
int64_max = pos (2 ^ 63 - 1)

abbrev int64_min : ℤ
int64_min = negsuc (2 ^ 63 - 1)

unfoldable pub sum_fits : ℤ → ℤ → Bool
sum_fits m n =
    eq_ℤ n (pos 0)
    || (ltb_ℤ (pos 0) n && not (ltb_ℤ (int64_max -ℤ n) m)
        || ltb_ℤ n (pos 0) && not (ltb_ℤ m (int64_min -ℤ n)))

unfoldable pub difference_fits : ℤ → ℤ → Bool
difference_fits m n =
    eq_ℤ n (pos 0)
    || (ltb_ℤ (pos 0) n && not (ltb_ℤ m (int64_min +ℤ n))
        || ltb_ℤ n (pos 0) && not (ltb_ℤ (int64_max +ℤ n) m))

-- an integer as an int64
unfoldable pub int64_of_integer : ℤ → ℤ
int64_of_integer (pos n) = wrap_int64 n
int64_of_integer (negsuc n) = wrap_int64 (2 ^ 64 - 1 - n % 2 ^ 64)

-- the operations on int64s; a division by 0 is undefined
unfoldable pub checked_sum : ℤ → ℤ → Option ℤ
checked_sum m n = if sum_fits m n then some (m +ℤ n) else none

unfoldable pub checked_difference : ℤ → ℤ → Option ℤ
checked_difference m n = if difference_fits m n then some (m -ℤ n) else none

unfoldable pub wrapped_product : ℤ → ℤ → Option ℤ
wrapped_product m n = some (int64_of_integer (m *ℤ n))

unfoldable pub wrapped_quotient : ℤ → ℤ → Option ℤ
wrapped_quotient m n = if eq_ℤ n (pos 0) then none else some (int64_of_integer (quotient m n))

unfoldable pub int64_remainder : ℤ → ℤ → Option ℤ
int64_remainder m n = if eq_ℤ n (pos 0) then none else some (remainder m n)

module _ (b : BigNum) where
  open b use {
    Bint, bint, add, subtract, multiply, divide, modulo, negate, less, equal, mask, to_long,
    serialize_bint, deserialize_bint,
  }

  -- `CScriptNum::value_type`
  pub data ScriptNum : Type 0 where
    small : ℤ → ScriptNum
    big : Bint → ScriptNum

  -- the constructor from bytes
  unfoldable pub read_span : List ℕ → Bool → Option ScriptNum
  read_span [] true = some (big (bint (pos 0)))
  read_span [] false = some (small (pos 0))
  read_span (x ∷ xs) true = some (big (deserialize_bint (x ∷ xs)))
  read_span (x ∷ xs) false = elim (deserialize (x ∷ xs)) [ none ↦ none | some n ↦ some (small n) ]

  unfoldable pub from_bytes : {S : Type 0} → List ℕ → Bool → ℕ → Bool → Action S ScriptNum
  from_bytes span require_minimal max_size big_int s =
      if ltb max_size (length span)
      then throws scriptnum_overflow_error s
      else if require_minimal && not (is_minimally_encoded span max_size)
      then throws scriptnum_minencode_error s
      else elim (read_span span big_int) [ none ↦ throws other s | some n ↦ done n s ]

  -- `operator ==` and `operator <`, on any two numbers and with an int64
  pub num_equal : ScriptNum → ScriptNum → Bool
  num_equal (small m) (small n) = eq_ℤ m n
  num_equal (big m) (big n) = equal m n
  num_equal (small m) (big n) = equal (bint m) n
  num_equal (big m) (small n) = equal m (bint n)

  pub num_less : ScriptNum → ScriptNum → Bool
  num_less (small m) (small n) = ltb_ℤ m n
  num_less (big m) (big n) = less m n
  num_less (small m) (big n) = less (bint m) n
  num_less (big m) (small n) = less m (bint n)

  abbrev pub less_int : ScriptNum → ℤ → Bool
  less_int a n = num_less a (small n)

  abbrev pub int_less : ℤ → ScriptNum → Bool
  int_less n a = num_less (small n) a

  -- `+=`, `-=`, `*=`, `/=`, `%=`. Where the two are not of one kind the assertion `equal_index` fails
  -- and `std::get` throws.
  unfoldable pub combine :
      {S : Type 0}
      → (ℤ → ℤ → Option ℤ)
      → (Bint → Bint → Option Bint)
      → ScriptNum
      → ScriptNum
      → Action S ScriptNum
  combine f g (small m) (small n) s = elim (f m n) [
    | none ↦ throws other s
    | some r ↦ done (small r) s
  ]
  combine f g (big m) (big n) s = elim (g m n) [
    | none ↦ throws big_int_error s
    | some r ↦ done (big r) s
  ]
  combine f g (small m) (big n) s = throws other s
  combine f g (big m) (small n) s = throws other s

  unfoldable pub num_add : {S : Type 0} → ScriptNum → ScriptNum → Action S ScriptNum
  unfolding combine
  num_add = combine checked_sum (λ m n. some (add m n))

  unfoldable pub num_subtract : {S : Type 0} → ScriptNum → ScriptNum → Action S ScriptNum
  unfolding combine
  num_subtract = combine checked_difference (λ m n. some (subtract m n))

  unfoldable pub num_multiply : {S : Type 0} → ScriptNum → ScriptNum → Action S ScriptNum
  unfolding combine
  num_multiply = combine wrapped_product (λ m n. some (multiply m n))

  unfoldable pub num_divide : {S : Type 0} → ScriptNum → ScriptNum → Action S ScriptNum
  unfolding combine
  num_divide = combine wrapped_quotient divide

  unfoldable pub num_modulo : {S : Type 0} → ScriptNum → ScriptNum → Action S ScriptNum
  unfolding combine
  num_modulo = combine int64_remainder modulo

  -- `operator &= (int64_t)`, with a mask that is not negative: the int64 is its bit pattern.
  unfoldable pub num_mask : ScriptNum → ℕ → ScriptNum
  num_mask (small (pos n)) m = small (pos (bit_and n m))
  num_mask (small (negsuc n)) m = small (pos (bit_and (2 ^ 64 - suc n) m))
  num_mask (big n) m = big (mask n (pos m))

  -- `operator -`
  unfoldable pub num_negate : ScriptNum → ScriptNum
  num_negate (small n) = small (pos 0 -ℤ n)
  num_negate (big n) = big (negate n)

  abbrev pub int_max : ℤ
  int_max = pos (2 ^ 31 - 1)

  abbrev pub int_min : ℤ
  int_min = negsuc (2 ^ 31 - 1)

  -- `getint`
  unfoldable pub getint : ScriptNum → ℤ
  getint (small n) = if ltb_ℤ int_max n then int_max else if ltb_ℤ n int_min then int_min else n
  getint (big n) =
      if less (bint int_max) n
      then int_max
      else if less n (bint int_min)
      then int_min
      else to_long n

  -- `to_size_t_limited`, for a number that is not negative, as its precondition says
  unfoldable pub to_size_t_limited : ScriptNum → ℕ
  to_size_t_limited (small n) = pos_part n
  to_size_t_limited (big n) = pos_part (to_long n)

  -- `getvch`
  unfoldable pub getvch : ScriptNum → List ℕ
  getvch (small n) = serialize n
  getvch (big n) = serialize_bint n
