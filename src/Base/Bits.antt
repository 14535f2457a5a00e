-- ===== src/Base/Bits.antt =====
-- Masks on one byte as arithmetic: each fact is a table over the byte's values.
use Prim.Native.Nat.{ℕ, zero, suc, ◌+◌, ◌*◌, ◌/◌, ◌%◌, ◌<◌, bit_and, bit_or}
use mathlib.Core.Path.{◌≡◌, refl}
use mathlib.Core.Bool.{Bool, true, false}
use mathlib.Core.Logic.{ite}
use native.Mathlib.Decide.{ℕ_discrete}
use native.Mathlib.Omega.{arith}

-- Two functions agree below a bound: checked by evaluation.
module _ (f g : ℕ → ℕ) where
  pub agree_below : ℕ → Bool
  unfolding ℕ_discrete
  agree_below zero = true
  agree_below (suc n) = ite (ℕ_discrete (f n) (g n)) (agree_below n) false

  pub agree_below→eq : (n : ℕ) → agree_below n ≡ true → (i : ℕ) → i < n → f i ≡ g i
  unfolding agree_below
  agree_below→eq zero e i h = absurd (omega arith)
  agree_below→eq (suc n) e i h = ground (arith, agree_below→eq n (ground arith) i)

pub and_0x80 : (b : ℕ) → b < 256 → bit_and b 0x80 ≡ b / 128 * 128
unfolding agree_below
and_0x80 = agree_below→eq _ _ 256 refl

pub and_0x7f : (b : ℕ) → b < 256 → bit_and b 0x7f ≡ b % 128
unfolding agree_below
and_0x7f = agree_below→eq _ _ 256 refl

pub or_0x80 : (b : ℕ) → b < 128 → bit_or b 0x80 ≡ b + 128
unfolding agree_below
or_0x80 = agree_below→eq _ _ 128 refl

pub or_zero : (b : ℕ) → b < 256 → bit_or b 0 ≡ b
unfolding agree_below
or_zero = agree_below→eq _ _ 256 refl

-- the bits below 0x20, and the highest one, of a byte that loses its bit of 0x40
pub and_0xbf_0x1f : (b : ℕ) → b < 256 → bit_and (bit_and b 0xbf) 0x1f ≡ bit_and b 0x1f
unfolding agree_below
and_0xbf_0x1f = agree_below→eq _ _ 256 refl

pub and_0xbf_0x80 : (b : ℕ) → b < 256 → bit_and (bit_and b 0xbf) 0x80 ≡ bit_and b 0x80
unfolding agree_below
and_0xbf_0x80 = agree_below→eq _ _ 256 refl
