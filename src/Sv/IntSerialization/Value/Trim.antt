-- ===== src/Sv/IntSerialization/Value/Trim.antt =====
-- The loop of `MinimallyEncode`: the sign joins the first byte from the end that is not zero, or
-- stands behind it.
use Prim.Native.Nat.{bit_or}
use mathlib.Core.List.{reverse, reverse-cons}
use native.Mathlib.Decide.{dec_lt}
use gigamonkey.Base.{ℕ, zero, suc, ◌+◌, ◌*◌, ◌%◌, ◌^◌, ◌≤◌, ◌<◌, ◌≡◌, refl, ap, arith, ◌∙◌, sym}
use gigamonkey.Base.{Bool, true, false, List, [], ◌∷◌, ◌++◌, ltb, length, All, ◌⊎◌, inl, inr}
use gigamonkey.Base.{length-append, All-append}
use gigamonkey.Base.Bits.{and_0x80, or_0x80, or_zero}
use gigamonkey.Base.Bytes.{IsByte, from_little, from_little-append, pow_256}
use gigamonkey.Base.Int.{pos}
use gigamonkey.Sv.IntSerialization.{signed, back, before_back, trim}
use gigamonkey.Sv.IntSerialization.Minimal.{EndsMinimally}
use gigamonkey.Sv.IntSerialization.Value.{magnitude, sign, value}

-- The last byte of a list that is put together from its end.
pub magnitude-append_last :
    (xs : List ℕ) (b : ℕ)
    → magnitude (xs ++ (b ∷ [])) ≡ from_little xs + 256 ^ length xs * (b % 128)
unfolding magnitude from_little
magnitude-append_last [] b = omega arith
magnitude-append_last (x ∷ []) b = omega arith
magnitude-append_last (x ∷ y ∷ xs) b = omega (
  arith,
  magnitude-append_last (y ∷ xs) b,
  ap (λ (t : ℕ). t * (b % 128)) (pow_256 (suc (length xs))),
)

pub back-append_last : (xs : List ℕ) (b : ℕ) → back (xs ++ (b ∷ [])) ≡ b
unfolding back
back-append_last [] b = refl
back-append_last (x ∷ []) b = refl
back-append_last (x ∷ y ∷ xs) b = back-append_last (y ∷ xs) b

pub sign-append_last : (xs : List ℕ) (b : ℕ) → sign (xs ++ (b ∷ [])) ≡ ltb 127 b
unfolding sign
sign-append_last xs b = rw back-append_last

pub before_back-append_last :
    (xs : List ℕ) (a b : ℕ) → before_back ((xs ++ (a ∷ [])) ++ (b ∷ [])) ≡ a
unfolding before_back
before_back-append_last [] a b = refl
before_back-append_last (x ∷ []) a b = refl
before_back-append_last (x ∷ y ∷ []) a b = refl
before_back-append_last (x ∷ y ∷ z ∷ xs) a b = before_back-append_last (y ∷ z ∷ xs) a b

pub All-reverse : (bs : List ℕ) → All IsByte bs → All IsByte (reverse bs)
All-reverse [] h = h
All-reverse (b ∷ bs) (hb, h) =
    rw reverse-cons (All-append IsByte (reverse bs) (b ∷ []) (All-reverse bs h) (hb, tt))

pub length-reverse : (bs : List ℕ) → length (reverse bs) ≡ length bs
length-reverse [] = refl
length-reverse (b ∷ bs) = rw (reverse-cons, length-append) (omega (arith, length-reverse bs))

-- `out` is a minimal encoding of the magnitude `m` under the sign `s`.
pub record Encodes (s : Bool) (m : ℕ) (out : List ℕ) : Type 0 where
  pub number : value out ≡ signed s m
  pub ends : (length out ≡ 0) ⊎ EndsMinimally out
  pub bytes : All IsByte out

abbrev pub IsSign : ℕ → Type 0
IsSign last = (last ≡ 0) ⊎ (last ≡ 0x80)

or_sign :
    (b last : ℕ)
    → b < 128
    → IsSign last
    → (bit_or b last % 128 ≡ b) × (ltb 127 (bit_or b last) ≡ ltb 127 last) × (bit_or b last < 256)
or_sign b last h s = ground (arith, or_zero b, or_0x80 b)

from_little_one : (b : ℕ) → from_little (b ∷ []) ≡ b
unfolding from_little
from_little_one b = omega arith

from_little-append_zero : (xs : List ℕ) → from_little (xs ++ (0 ∷ [])) ≡ from_little xs
from_little-append_zero xs =
    omega (
      arith,
      from_little-append xs (0 ∷ []),
      ap (λ (t : ℕ). 256 ^ length xs * t) (from_little_one 0),
    )

signed_zero : (s : Bool) → signed s 0 ≡ pos 0
signed_zero true = unfold signed in refl
signed_zero false = unfold signed in refl

pub nothing-Encodes : (s : Bool) → Encodes s 0 []
unfolding value sign magnitude back
nothing-Encodes s = record {
  number = signed_zero false ∙ sym (signed_zero s);
  ends = inl refl;
  bytes = tt;
}

-- The sign joins a byte with room for it.
joined-Encodes :
    (front : List ℕ) (b last : ℕ)
    → All IsByte front
    → 0 < b
    → b < 128
    → IsSign last
    → Encodes (ltb 127 last) (from_little (front ++ (b ∷ []))) (front ++ (bit_or b last ∷ []))
unfolding value sign
joined-Encodes front b last h pos_b small s =
    let (low, top, byte) = or_sign b last small s in
    record {
      number =
          rw (magnitude-append_last, back-append_last, low, top)
            (ap (signed (ltb 127 last)) (
              sym (
                from_little-append front (b ∷ [])
                ∙ ap (λ t. from_little front + 256 ^ length front * t) (from_little_one b))));
      ends = inr (inl (rw (back-append_last, low) pos_b));
      bytes = All-append IsByte front _ h (byte, tt);
    }

-- The sign stands in a byte of its own.
alone-Encodes :
    (front : List ℕ) (b last : ℕ)
    → All IsByte front
    → 127 < b
    → b < 256
    → IsSign last
    → Encodes (ltb 127 last) (from_little (front ++ (b ∷ []))) ((front ++ (b ∷ [])) ++ (last ∷ []))
unfolding value sign
alone-Encodes front b last h big byte s =
    let no_digit : last % 128 ≡ 0 = ground arith in
    record {
      number =
          rw (magnitude-append_last, back-append_last)
            (ap (signed (ltb 127 last)) (rw no_digit (omega arith)));
      ends = inr (
          inr (
            omega (
              arith,
              length-append (front ++ (b ∷ [])) (last ∷ []),
              length-append front (b ∷ []),
            ),
            rw before_back-append_last big,
          ));
      bytes =
          All-append IsByte (front ++ (b ∷ [])) _ (All-append IsByte front _ h (byte, tt))
            (ground arith, tt);
    }

-- The three ways of a round of the loop.
trim_zero : (last : ℕ) (front : List ℕ) → trim last (0 ∷ front) ≡ trim last front
unfolding trim
trim_zero last front = refl

trim_joined :
    (last b : ℕ) (front : List ℕ) → 0 < b → b < 128 → trim last (b ∷ front) ≡ bit_or b last ∷ front
unfolding trim
trim_joined last b front p h = ground (arith, and_0x80 b)

trim_alone :
    (last b : ℕ) (front : List ℕ) → 127 < b → b < 256 → trim last (b ∷ front) ≡ last ∷ b ∷ front
unfolding trim
trim_alone last b front p h = ground (arith, and_0x80 b)

pub trim-Encodes :
    (last : ℕ) (front : List ℕ)
    → All IsByte front
    → IsSign last
    → Encodes (ltb 127 last) (from_little (reverse front)) (reverse (trim last front))
trim-Encodes last [] h s = unfold from_little trim in nothing-Encodes (ltb 127 last)
trim-Encodes last (zero ∷ front) (hb, h) s =
    rw (trim_zero, reverse-cons, from_little-append_zero) (trim-Encodes last front h s)
trim-Encodes last (suc n ∷ front) (hb, h) s = elim (dec_lt (suc n) 128) [
  | yes small ↦
      rw (trim_joined last (suc n) front (omega arith) small, reverse-cons, reverse-cons)
        (joined-Encodes (reverse front) (suc n) last (All-reverse front h) (omega arith) small s)
  | no big ↦
      rw (trim_alone last (suc n) front (omega arith) hb, reverse-cons, reverse-cons, reverse-cons)
        (alone-Encodes (reverse front) (suc n) last (All-reverse front h) (omega arith) hb s)
]

pub length-trim : (last : ℕ) (front : List ℕ) → length (trim last front) ≤ suc (length front)
unfolding trim
length-trim last [] = omega arith
length-trim last (b ∷ front) = ground (arith, length-trim last front)
