-- ===== src/Tests.antt =====
-- The theorems at concrete inputs, with integers for the big integers of OpenSSL.
mod Numbers
mod Scripts
mod Stacks
mod Merkle
mod Work
mod Chain
mod Patterns
mod Fees
mod Spending
use gigamonkey.Base.{none, some, if◌then◌else◌, refl, ℕ, true, List}
use gigamonkey.Base.Int.{ℤ, pos, ◌+ℤ◌, ◌-ℤ◌, ◌*ℤ◌, ltb_ℤ}
use gigamonkey.Sv.BigNum.{BigNum, BigNumLaws, quotient, remainder, eq_ℤ}
use gigamonkey.Sv.IntSerialization.{serialize}
use gigamonkey.Sv.IntSerialization.Value.{value}

abbrev pub integers : BigNum
integers = record {
  Bint = ℤ;
  bint = λ n. n;
  add = ◌+ℤ◌;
  subtract = ◌-ℤ◌;
  multiply = ◌*ℤ◌;
  divide = λ m n. if eq_ℤ n (pos 0) then none else some (quotient m n);
  modulo = λ m n. if eq_ℤ n (pos 0) then none else some (remainder m n);
  negate = λ n. pos 0 -ℤ n;
  less = ltb_ℤ;
  equal = eq_ℤ;
  mask = λ m n. n;
  to_long = λ n. n;
  serialize_bint = serialize;
  deserialize_bint = value;
}

abbrev pub integers-laws : BigNumLaws integers
integers-laws = record {
  integer = λ n. n;
  integer-bint = λ n. refl;
  integer-less = λ m n. refl;
  integer-equal = λ m n. refl;
  integer-deserialize = λ bs. refl;
  serialize-integer = λ m. refl;
}
