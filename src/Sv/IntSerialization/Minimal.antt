-- ===== src/Sv/IntSerialization/Minimal.antt =====
-- What `is_minimally_encoded` tests, and that `serialize` writes such bytes.
use mathlib.Core.Logic.{dif_pos, dif_neg}
use mathlib.Core.WellFounded.{Acc}
use native.Mathlib.Bridge.{le_prop}
use native.Mathlib.Decide.{dec_lt}
use gigamonkey.Base.{ℕ, ◌/◌, ◌%◌, ◌≤◌, ◌<◌, ◌≡◌, refl, arith}
use gigamonkey.Base.{Bool, true, List, [], ◌∷◌, ◌==◌, length, All, ◌⊎◌, inl, inr}
use gigamonkey.Base.{◌↔◌, Bool-cases}
use gigamonkey.Base.Bits.{and_0x80, and_0x7f, or_0x80}
use gigamonkey.Base.Bytes.{IsByte}
use gigamonkey.Base.Int.{ℤ}
use gigamonkey.Base.Order.{lt_wf}
use gigamonkey.Sv.IntSerialization.{
  abs, is_negative, last_bytes, serialize_loop, serialize, back, before_back, is_minimally_encoded,
  quotient_smaller,
}
use gigamonkey.Sv.IntSerialization.RoundTrip.{serialize_loop-ne-nil}

-- The last byte has more than a sign, or its sign bit is needed by the byte before it.
abbrev pub EndsMinimally : List ℕ → Type 0
EndsMinimally bs = (0 < back bs % 128) ⊎ ((1 < length bs) × (127 < before_back bs))

pub back-cons : (b : ℕ) (bs : List ℕ) → 0 < length bs → back (b ∷ bs) ≡ back bs
unfolding back
back-cons b [] h = absurd (omega arith)
back-cons b (c ∷ bs) h = refl

pub before_back-cons : (b : ℕ) (bs : List ℕ) → 1 < length bs → before_back (b ∷ bs) ≡ before_back bs
unfolding before_back
before_back-cons b [] h = absurd (omega arith)
before_back-cons b (c ∷ []) h = absurd (omega arith)
before_back-cons b (c ∷ d ∷ bs) h = refl

pub back-IsByte : (bs : List ℕ) → All IsByte bs → back bs < 256
unfolding back
back-IsByte [] h = omega arith
back-IsByte (b ∷ []) h = h.0
back-IsByte (b ∷ c ∷ bs) h = back-IsByte (c ∷ bs) h.1

pub before_back-IsByte : (bs : List ℕ) → All IsByte bs → before_back bs < 256
unfolding before_back
before_back-IsByte [] h = omega arith
before_back-IsByte (b ∷ []) h = omega arith
before_back-IsByte (b ∷ c ∷ []) h = h.0
before_back-IsByte (b ∷ c ∷ d ∷ bs) h = before_back-IsByte (c ∷ d ∷ bs) h.1

pub EndsMinimally-cons :
    (b : ℕ) (bs : List ℕ) → 0 < length bs → EndsMinimally bs → EndsMinimally (b ∷ bs)
EndsMinimally-cons b bs h (inl e) = inl (rw (back-cons b bs h) e)
EndsMinimally-cons b bs h (inr (two, e)) = inr (omega arith, rw (before_back-cons b bs two) e)

-- `IsMinimallyEncoded` accepts bytes exactly when they are no more than allowed and are empty or
-- end minimally.
pub is_minimally_encoded_iff :
    (bs : List ℕ) (max_size : ℕ)
    → All IsByte bs
    → (is_minimally_encoded bs max_size ≡ true)
      ↔ ((length bs ≤ max_size) × ((length bs ≡ 0) ⊎ EndsMinimally bs))
unfolding is_minimally_encoded
is_minimally_encoded_iff bs max_size h = ground (
  arith,
  and_0x7f (back bs) (back-IsByte bs h),
  and_0x80 (before_back bs) (before_back-IsByte bs h),
)

last_bytes-EndsMinimally : (neg : Bool) (a : ℕ) → 0 < a → a < 256 → EndsMinimally (last_bytes neg a)
unfolding last_bytes back before_back
last_bytes-EndsMinimally neg a h small = ground (arith, and_0x80 a small, or_0x80 a)

last_bytes-IsByte : (neg : Bool) (a : ℕ) → a < 256 → All IsByte (last_bytes neg a)
unfolding last_bytes
last_bytes-IsByte neg a small = ground (arith, and_0x80 a small, or_0x80 a)

serialize_loop-EndsMinimally :
    (neg : Bool) (a : ℕ) (w : Acc ◌<◌ a)
    → 0 < a
    → EndsMinimally (serialize_loop neg a w) × All IsByte (serialize_loop neg a w)
unfolding serialize_loop
serialize_loop-EndsMinimally neg a (Acc.intro _ smaller) h = elim (dec_lt 0 (a / 256)) [
  | yes more ↦
      let w = smaller (a / 256) (quotient_smaller a more) in
      let (ends, bytes) =
        serialize_loop-EndsMinimally neg (a / 256) (smaller (a / 256) (quotient_smaller a more))
          more in
      rw (dif_pos (dec_lt 0 (a / 256)) le_prop more) (
        EndsMinimally-cons (a % 256) _ (serialize_loop-ne-nil neg (a / 256) w) ends,
        (omega arith, bytes),
      )
  | no last ↦
      let e : a % 256 ≡ a = omega arith in
      rw (dif_neg (dec_lt 0 (a / 256)) last, e)
        (last_bytes-EndsMinimally neg a h (omega arith), last_bytes-IsByte neg a (omega arith))
]

pub serialize-EndsMinimally :
    (v : ℤ) → ((length (serialize v) ≡ 0) ⊎ EndsMinimally (serialize v)) × All IsByte (serialize v)
unfolding serialize
serialize-EndsMinimally v = elim (Bool-cases (abs v == 0)) [
  | inl z ↦ rw z (inl refl, tt)
  | inr p ↦
      let (ends, bytes) =
        serialize_loop-EndsMinimally (is_negative v) (abs v) (lt_wf.apply (abs v)) (ground arith) in
      rw p (inr ends, bytes)
]

-- The bytes of any integer are minimally encoded, wherever that many are allowed.
pub serialize_minimal :
    (v : ℤ) (max_size : ℕ)
    → length (serialize v) ≤ max_size
    → is_minimally_encoded (serialize v) max_size ≡ true
serialize_minimal v max_size h =
    let (ends, bytes) = serialize-EndsMinimally v in
    (is_minimally_encoded_iff (serialize v) max_size bytes).1 (h, ends)
