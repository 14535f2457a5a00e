-- ===== src/Sv/IntSerialization/Value/Encode.antt =====
-- `MinimallyEncode` keeps the integer, and what it leaves is minimally encoded.
use mathlib.Core.List.{reverse, reverse-cons, reverse-reverse}
use native.Mathlib.Decide.{dec_lt}
use native.Mathlib.Nat.{mul-zero, add-zero}
use gigamonkey.Base.{ℕ, ◌%◌, ◌≤◌, ◌<◌, ◌≡◌, refl, ap, arith, ◌∙◌}
use gigamonkey.Base.{Bool, true, false, List, [], ◌∷◌, length, All, ◌⊎◌, inl, inr}
use gigamonkey.Base.{◌↔◌, Bool-cases}
use gigamonkey.Base.Bits.{and_0x80, and_0x7f}
use gigamonkey.Base.Bytes.{IsByte}
use gigamonkey.Sv.IntSerialization.{
  trim, minimally_encode_reversed, minimally_encode, is_minimally_encoded,
}
use gigamonkey.Sv.IntSerialization.Minimal.{EndsMinimally, is_minimally_encoded_iff}
use gigamonkey.Sv.IntSerialization.Value.{magnitude, sign, value}
use gigamonkey.Sv.IntSerialization.Value.Trim.{
  Encodes, back-append_last, before_back-append_last, sign-append_last, magnitude-append_last,
  All-reverse, length-reverse, length-trim, nothing-Encodes, trim-Encodes,
}

-- `MinimallyEncode` returns early, or trims.
reversed_keeps_last :
    (last : ℕ) (front : List ℕ)
    → last < 256
    → 0 < last % 128
    → minimally_encode_reversed (last ∷ front) ≡ (last ∷ front, false)
unfolding minimally_encode_reversed
reversed_keeps_last last [] h p = ground (arith, and_0x7f last)
reversed_keeps_last last (b ∷ front) h p = ground (arith, and_0x7f last)

reversed_keeps_two :
    (last b : ℕ) (front : List ℕ)
    → last < 256
    → b < 256
    → 127 < b
    → minimally_encode_reversed (last ∷ b ∷ front) ≡ (last ∷ b ∷ front, false)
unfolding minimally_encode_reversed
reversed_keeps_two last b front h hb p = ground (arith, and_0x80 b)

reversed_trims :
    (last b : ℕ) (front : List ℕ)
    → last < 256
    → b < 128
    → last % 128 ≡ 0
    → minimally_encode_reversed (last ∷ b ∷ front) ≡ (trim last (b ∷ front), true)
unfolding minimally_encode_reversed
reversed_trims last b front h hb p = ground (arith, and_0x7f last, and_0x80 b)

self-Encodes :
    (bs : List ℕ)
    → All IsByte bs
    → (length bs ≡ 0) ⊎ EndsMinimally bs
    → Encodes (sign bs) (magnitude bs) bs
unfolding value
self-Encodes bs h m = record { number = refl; ends = m; bytes = h }

-- The outcome `r` of minimally encoding `bs`, both reversed.
record Outcome (rs : List ℕ) (r : List ℕ × Bool) : Type 0 where
  encodes : Encodes (sign (reverse rs)) (magnitude (reverse rs)) (reverse r.0)
  unchanged : r.1 ≡ false → (r.0 ≡ rs) × ((length (reverse rs) ≡ 0) ⊎ EndsMinimally (reverse rs))
  changed : r.1 ≡ true → ¬ ((length (reverse rs) ≡ 0) ⊎ EndsMinimally (reverse rs))

Outcome_keeps :
    (rs : List ℕ)
    → All IsByte rs
    → (length (reverse rs) ≡ 0) ⊎ EndsMinimally (reverse rs)
    → Outcome rs (rs, false)
Outcome_keeps rs h m = record {
  encodes = self-Encodes (reverse rs) (All-reverse rs h) m;
  unchanged = λ _. (refl, m);
  changed = λ e. cc;
}

ends_by_last : (last : ℕ) (front : List ℕ) → 0 < last % 128 → EndsMinimally (reverse (last ∷ front))
ends_by_last last front p = inl (rw (reverse-cons, back-append_last) p)

ends_by_two : (last b : ℕ) (front : List ℕ) → 127 < b → EndsMinimally (reverse (last ∷ b ∷ front))
ends_by_two last b front p =
    inr
      (rw length-reverse (omega arith), rw (reverse-cons, reverse-cons, before_back-append_last) p)

no_ends :
    (last b : ℕ) (front : List ℕ)
    → last % 128 ≡ 0
    → b < 128
    → ¬ ((length (reverse (last ∷ b ∷ front)) ≡ 0) ⊎ EndsMinimally (reverse (last ∷ b ∷ front)))
no_ends last b front z small (inl empty) = absurd (omega (arith, length-reverse (last ∷ b ∷ front)))
no_ends last b front z small (inr (inl p)) =
    absurd (omega (arith, rw (reverse-cons, back-append_last) at p))
no_ends last b front z small (inr (inr (_, p))) =
    absurd (omega (arith, rw (reverse-cons, reverse-cons, before_back-append_last) at p))

Outcome_trims :
    (last b : ℕ) (front : List ℕ)
    → All IsByte (last ∷ b ∷ front)
    → last % 128 ≡ 0
    → b < 128
    → Outcome (last ∷ b ∷ front) (trim last (b ∷ front), true)
Outcome_trims last b front (hl, h) z small = record {
  encodes =
      rw (reverse-cons last (b ∷ front), sign-append_last, magnitude-append_last, z)
        (rw mul-zero (rw add-zero (trim-Encodes last (b ∷ front) h (ground arith))));
  unchanged = λ e. cc;
  changed = λ _. no_ends last b front z small;
}

reversed_zero :
    (last : ℕ) → last < 256 → last % 128 ≡ 0 → minimally_encode_reversed (last ∷ []) ≡ ([], true)
unfolding minimally_encode_reversed
reversed_zero last h z = ground (arith, and_0x7f last)

Outcome_zero :
    (last : ℕ)
    → last < 256
    → last % 128 ≡ 0
    → Outcome (last ∷ []) (minimally_encode_reversed (last ∷ []))
unfolding magnitude
Outcome_zero last h z = rw (reversed_zero last h z) record {
  encodes = rw z (nothing-Encodes (sign (last ∷ [])));
  unchanged = λ e. cc;
  changed = λ _. not_minimal;
}
  where
    not_minimal : ¬ ((length (reverse (last ∷ [])) ≡ 0) ⊎ EndsMinimally (reverse (last ∷ [])))
    not_minimal (inl empty) = absurd (omega arith)
    not_minimal (inr (inl p)) = absurd (omega (arith, rw (back-append_last []) at p))
    not_minimal (inr (inr (two, _))) = absurd (omega arith)

minimally_encode_reversed-Outcome :
    (rs : List ℕ) → All IsByte rs → Outcome rs (minimally_encode_reversed rs)
minimally_encode_reversed-Outcome [] h =
    unfold minimally_encode_reversed in Outcome_keeps [] h (inl refl)
minimally_encode_reversed-Outcome (last ∷ front) (hl, h) = elim (dec_lt 0 (last % 128)) [
  | yes p ↦
      rw (reversed_keeps_last last front hl p)
        (Outcome_keeps (last ∷ front) (hl, h) (inr (ends_by_last last front p)))
  | no z ↦ no_digit front h (omega arith)
]
  where
    no_digit :
        (front : List ℕ)
        → All IsByte front
        → last % 128 ≡ 0
        → Outcome (last ∷ front) (minimally_encode_reversed (last ∷ front))
    no_digit [] h z = Outcome_zero last hl z
    no_digit (b ∷ front) (hb, h) z = elim (dec_lt 127 b) [
      | yes p ↦
          rw (reversed_keeps_two last b front hl hb p)
            (Outcome_keeps (last ∷ b ∷ front) (hl, (hb, h)) (inr (ends_by_two last b front p)))
      | no small ↦
          rw (reversed_trims last b front hl (omega arith) z)
            (Outcome_trims last b front (hl, (hb, h)) z (omega arith))
    ]

-- `MinimallyEncode` keeps the integer that the bytes stand for.
pub minimally_encode-value :
    (bs : List ℕ) → All IsByte bs → value (minimally_encode bs).0 ≡ value bs
unfolding minimally_encode
minimally_encode-value bs h =
    let o = minimally_encode_reversed-Outcome (reverse bs) (All-reverse bs h) in
    o.encodes.number ∙ (unfold value in rw reverse-reverse refl)

-- What `MinimallyEncode` leaves passes `IsMinimallyEncoded` wherever that many bytes are allowed.
pub minimally_encode_minimal :
    (bs : List ℕ) (max_size : ℕ)
    → All IsByte bs
    → length (minimally_encode bs).0 ≤ max_size
    → is_minimally_encoded (minimally_encode bs).0 max_size ≡ true
unfolding minimally_encode
minimally_encode_minimal bs max_size h fits =
    let o = minimally_encode_reversed-Outcome (reverse bs) (All-reverse bs h) in
    (is_minimally_encoded_iff _ max_size o.encodes.bytes).1 (fits, o.encodes.ends)

-- `MinimallyEncode` says that it changed nothing exactly when the bytes are minimally encoded
-- already, and then it leaves them as they are.
pub minimally_encode_unchanged :
    (bs : List ℕ)
    → All IsByte bs
    → ((minimally_encode bs).1 ≡ false)
      ↔ ((is_minimally_encoded bs (length bs) ≡ true) × ((minimally_encode bs).0 ≡ bs))
unfolding minimally_encode
minimally_encode_unchanged bs h = (forth, back_again)
  where
    o : Outcome (reverse bs) (minimally_encode_reversed (reverse bs))
    o = minimally_encode_reversed-Outcome (reverse bs) (All-reverse bs h)

    was_changed : Bool
    was_changed = (minimally_encode bs).1

    forth :
        was_changed ≡ false
        → (is_minimally_encoded bs (length bs) ≡ true) × ((minimally_encode bs).0 ≡ bs)
    forth e =
        let (same, ends) = o.unchanged e in
        (
          (is_minimally_encoded_iff bs (length bs) h).1 (omega arith, rw reverse-reverse at ends),
          ap reverse same ∙ reverse-reverse bs,
        )

    back_again :
        (is_minimally_encoded bs (length bs) ≡ true) × ((minimally_encode bs).0 ≡ bs)
        → was_changed ≡ false
    back_again (m, _) = elim (Bool-cases was_changed) [
      | inl e ↦ absurd (
          o.changed e (rw (reverse-reverse bs) ((is_minimally_encoded_iff bs (length bs) h).0 m).1))
      | inr e ↦ e
    ]

length-minimally_encode_reversed :
    (rs : List ℕ) → length (minimally_encode_reversed rs).0 ≤ length rs
unfolding minimally_encode_reversed
length-minimally_encode_reversed [] = omega arith
length-minimally_encode_reversed (last ∷ []) = ground arith
length-minimally_encode_reversed (last ∷ b ∷ front) = ground (arith, length-trim last (b ∷ front))

-- `MinimallyEncode` never makes the data longer.
pub length-minimally_encode : (bs : List ℕ) → length (minimally_encode bs).0 ≤ length bs
unfolding minimally_encode
length-minimally_encode bs = omega (
  arith,
  length-minimally_encode_reversed (reverse bs),
  length-reverse bs,
  length-reverse (minimally_encode_reversed (reverse bs)).0,
)
