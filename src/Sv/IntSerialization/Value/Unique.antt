-- ===== src/Sv/IntSerialization/Value/Unique.antt =====
-- An integer has one minimal encoding: what is minimally encoded is what `serialize` writes.
use mathlib.Core.WellFounded.{Acc}
use native.Mathlib.Decide.{dec_lt}
use gigamonkey.Base.{ℕ, zero, suc, ◌+◌, ◌*◌, ◌/◌, ◌%◌, ◌≤◌, ◌<◌, ◌≡◌, refl, ap, arith, ◌∙◌}
use gigamonkey.Base.Int.{ℤ}
use gigamonkey.Base.{some, Bool, true, false, List, [], ◌∷◌, ltb, ◌==◌, length, All, inl, inr}
use gigamonkey.Base.Bits.{and_0x80, or_0x80}
use gigamonkey.Base.Bytes.{IsByte}
use gigamonkey.Base.Order.{lt_wf}
use gigamonkey.Sv.IntSerialization.{
  abs, is_negative, signed, last_bytes, serialize_loop, serialize, back, before_back, deserialize,
  is_minimally_encoded,
}
use gigamonkey.Sv.IntSerialization.RoundTrip.{serialize_loop_more, serialize_loop_last}
use gigamonkey.Sv.IntSerialization.Minimal.{EndsMinimally, is_minimally_encoded_iff}
use gigamonkey.Sv.IntSerialization.Value.{magnitude, sign, value, deserialize-value}

magnitude-pos : (bs : List ℕ) → EndsMinimally bs → 0 < magnitude bs
unfolding magnitude back before_back
magnitude-pos [] h = absurd (ground arith)
magnitude-pos (b ∷ []) h = ground arith
magnitude-pos (b ∷ c ∷ []) h = ground arith
magnitude-pos (b ∷ c ∷ d ∷ bs) h = omega (arith, magnitude-pos (c ∷ d ∷ bs) (ground arith))

last_bytes_one : (b : ℕ) → b < 256 → 0 < b % 128 → last_bytes (ltb 127 b) (b % 128) ≡ b ∷ []
unfolding last_bytes
last_bytes_one b h p = ground (arith, and_0x80 (b % 128), or_0x80 (b % 128))

last_bytes_two :
    (b c : ℕ) → b < 256 → c < 256 → c % 128 ≡ 0 → 127 < b → last_bytes (ltb 127 c) b ≡ b ∷ c ∷ []
unfolding last_bytes
last_bytes_two b c hb hc z big = ground (arith, and_0x80 b)

-- One round of the loop, where more bytes follow.
inner_byte :
    (b a : ℕ) (bs : List ℕ) (neg : Bool) (w : Acc ◌<◌ a)
    → b < 256
    → 0 < magnitude bs
    → a ≡ b + 256 * magnitude bs
    → ((w' : Acc ◌<◌ (a / 256)) → serialize_loop neg (a / 256) w' ≡ bs)
    → serialize_loop neg a w ≡ b ∷ bs
inner_byte b a bs neg (Acc.intro _ smaller) hb pos_m e rest =
    let (w', step) = serialize_loop_more neg a smaller (omega arith) in
    let digit : a % 256 ≡ b = omega arith in
    step ∙ ap (λ t. t ∷ serialize_loop neg (a / 256) w') digit ∙ ap (λ t. b ∷ t) (rest w')

serialize_loop-magnitude :
    (bs : List ℕ) (a : ℕ) (w : Acc ◌<◌ a)
    → a ≡ magnitude bs
    → All IsByte bs
    → EndsMinimally bs
    → serialize_loop (sign bs) a w ≡ bs
unfolding magnitude sign back before_back
serialize_loop-magnitude [] a w e h m = absurd (ground arith)
serialize_loop-magnitude (b ∷ []) a w e (hb, _) m =
    serialize_loop_last (ltb 127 b) a w (omega arith)
    ∙ ap (last_bytes (ltb 127 b)) e
    ∙ last_bytes_one b hb (ground arith)
serialize_loop-magnitude (b ∷ c ∷ []) a w e (hb, (hc, _)) m = elim (dec_lt 0 (c % 128)) [
  | yes more ↦
      inner_byte b a (c ∷ []) (ltb 127 c) w hb more e
        (λ w'. serialize_loop-magnitude (c ∷ []) (a / 256) w' (omega arith) (hc, tt) (inl more))
  | no none_left ↦
      let a_is_b : a ≡ b = omega arith in
      serialize_loop_last (ltb 127 c) a w (omega arith)
      ∙ ap (last_bytes (ltb 127 c)) a_is_b
      ∙ last_bytes_two b c hb hc (omega arith) (ground arith)
]
serialize_loop-magnitude (b ∷ c ∷ d ∷ bs) a w e (hb, h) m =
    inner_byte b a (c ∷ d ∷ bs) (sign (c ∷ d ∷ bs)) w hb (magnitude-pos (c ∷ d ∷ bs) (tail m)) e
      (λ w'. serialize_loop-magnitude (c ∷ d ∷ bs) (a / 256) w' (omega arith) h (tail m))
  where
    tail : EndsMinimally (b ∷ c ∷ d ∷ bs) → EndsMinimally (c ∷ d ∷ bs)
    tail (inl x) = inl x
    tail (inr (_, x)) = inr (omega arith, x)

sign-signed : (s : Bool) (n : ℕ) → 0 < n → (is_negative (signed s n) ≡ s) × (abs (signed s n) ≡ n)
unfolding is_negative signed abs
sign-signed true zero h = absurd (omega arith)
sign-signed true (suc n) h = (refl, refl)
sign-signed false n h = (refl, refl)

pub serialize-value : (bs : List ℕ) → All IsByte bs → EndsMinimally bs → serialize (value bs) ≡ bs
unfolding serialize value
serialize-value bs h m =
    let (s, a) = sign-signed (sign bs) (magnitude bs) (magnitude-pos bs m) in
    let not_zero : (magnitude bs == 0) ≡ false = ground (arith, magnitude-pos bs m) in
    rw (s, a, not_zero)
      (serialize_loop-magnitude bs (magnitude bs) (lt_wf.apply (magnitude bs)) refl h m)

-- One to eight bytes that are minimally encoded, by a greatest size of at most eight, are read as an
-- integer, and `serialize` writes that integer as these bytes: no two such encodings have one value.
pub serialize-deserialize :
    (bs : List ℕ) (max_size : ℕ)
    → All IsByte bs
    → 0 < length bs
    → max_size ≤ 8
    → is_minimally_encoded bs max_size ≡ true
    → (n : ℤ) × ((deserialize bs ≡ some n) × (serialize n ≡ bs))
serialize-deserialize [] max_size h one small m = absurd (omega (arith, one))
serialize-deserialize (b ∷ bs) max_size h one small m =
    let (fits, ends) = (is_minimally_encoded_iff (b ∷ bs) max_size h).0 m in
    (
      value (b ∷ bs),
      (
        deserialize-value b bs h (omega (arith, fits, small)),
        elim ends [
          | inl empty ↦ absurd (omega (arith, empty))
          | inr e ↦ serialize-value (b ∷ bs) h e
        ],
      ),
    )
