-- ===== src/Sv/IntSerialization/Value.antt =====
-- The integer that any bytes stand for, read in one piece, and that `deserialize` computes it.
pub mod Unique
pub mod Trim
pub mod Encode
use gigamonkey.Base.{ℕ, zero, suc, ◌+◌, ◌*◌, ◌/◌, ◌%◌, ◌^◌, ◌≤◌, ◌<◌, ◌≡◌, refl, ap, arith, ◌∙◌}
use gigamonkey.Base.{Bool, some, List, [], ◌∷◌, ltb, length, All}
use gigamonkey.Base.Bytes.{IsByte, pow_256, digit_fits}
use gigamonkey.Base.Int.{ℤ}
use gigamonkey.Sv.IntSerialization.{signed, back, deserialize_loop, deserialize}
use gigamonkey.Sv.IntSerialization.RoundTrip.{
  deserialize_inner, deserialize_last, deserialize_looped,
}

-- the number without the top bit of the last byte, and that bit
unfoldable pub magnitude : List ℕ → ℕ
magnitude [] = 0
magnitude (b ∷ []) = b % 128
magnitude (b ∷ c ∷ bs) = b + 256 * magnitude (c ∷ bs)

unfoldable pub sign : List ℕ → Bool
sign bs = ltb 127 (back bs)

unfoldable pub value : List ℕ → ℤ
value bs = signed (sign bs) (magnitude bs)

deserialize_loop-value :
    (b : ℕ) (bs : List ℕ) (i result : ℕ)
    → All IsByte (b ∷ bs)
    → i + length bs < 8
    → result < 256 ^ i
    → deserialize_loop (b ∷ bs) i result
      ≡ signed (sign (b ∷ bs)) (result + magnitude (b ∷ bs) * 256 ^ i)
unfolding magnitude sign back
deserialize_loop-value b [] i result h hi fits = deserialize_last b i result h.0 (omega arith) fits
deserialize_loop-value b (c ∷ bs) i result h hi fits =
    deserialize_inner b (c ∷ bs) i result (omega arith) fits
    ∙ deserialize_loop-value c bs (suc i) (result + b * 256 ^ i) h.1 (omega arith)
        (digit_fits result b i h.0 fits)
    ∙ ap (signed (sign (c ∷ bs)))
        (omega (arith, ap (λ (t : ℕ). magnitude (c ∷ bs) * t) (pow_256 i)))

-- One to eight bytes are read as the integer that they stand for.
pub deserialize-value :
    (b : ℕ) (bs : List ℕ)
    → All IsByte (b ∷ bs)
    → length (b ∷ bs) ≤ 8
    → deserialize (b ∷ bs) ≡ some (value (b ∷ bs))
unfolding value
deserialize-value b bs h fits =
    let one : magnitude (b ∷ bs) * 256 ^ 0 ≡ magnitude (b ∷ bs) = omega arith in
    deserialize_looped (b ∷ bs) (omega arith) (omega (arith, fits))
    ∙ ap some (
        deserialize_loop-value b bs 0 0 h (omega arith) (omega arith)
        ∙ ap (signed (sign (b ∷ bs))) (omega arith))
