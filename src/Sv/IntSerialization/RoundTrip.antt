-- ===== src/Sv/IntSerialization/RoundTrip.antt =====
-- `deserialize` takes back what `serialize` wrote.
use mathlib.Core.Logic.{dif_pos, dif_neg}
use native.Mathlib.Decide.{dec_lt}
use native.Mathlib.Nat.{div-add-mod, zero-add}
use native.Mathlib.Bridge.{le_prop}
use mathlib.Core.WellFounded.{Acc}
use gigamonkey.Base.{ℕ, zero, suc, ◌+◌, ◌*◌, ◌/◌, ◌%◌, ◌^◌, ◌<◌, ◌≡◌, refl, ap, ◌∙◌, arith}
use gigamonkey.Base.{some, ◌≤◌}
use gigamonkey.Base.{Bool, false, List, [], ◌∷◌, ltb, ◌==◌, length}
use gigamonkey.Base.Bits.{and_0x80, and_0x7f, or_0x80}
use gigamonkey.Base.Wide.{bit_or_shifted, pow-bytes}
use gigamonkey.Base.Bytes.{pow_256, digit_fits}
use gigamonkey.Base.Order.{lt_wf}
use gigamonkey.Base.Int.{ℤ, pos, negsuc}
use gigamonkey.Sv.IntSerialization.{abs, is_negative, signed, last_bytes, serialize_loop, serialize}
use gigamonkey.Sv.IntSerialization.{deserialize_loop, deserialize, quotient_smaller}

pub last_bytes-ne-nil : (neg : Bool) (tmp : ℕ) → 0 < length (last_bytes neg tmp)
unfolding last_bytes
last_bytes-ne-nil neg tmp = ground arith

pub serialize_loop-ne-nil :
    (neg : Bool) (a : ℕ) (w : Acc ◌<◌ a) → 0 < length (serialize_loop neg a w)
unfolding serialize_loop
serialize_loop-ne-nil neg a (Acc.intro _ smaller) = ground (arith, last_bytes-ne-nil neg (a % 256))

-- A byte that is not the last one.
pub deserialize_inner :
    (b : ℕ) (bs : List ℕ) (i result : ℕ)
    → 0 < length bs
    → result < 256 ^ i
    → deserialize_loop (b ∷ bs) i result ≡ deserialize_loop bs (suc i) (result + b * 256 ^ i)
unfolding deserialize_loop
deserialize_inner b [] i result h fits = absurd (omega arith)
deserialize_inner b (c ∷ bs) i result h fits =
    rw (bit_or_shifted (8 * i) result b (rw pow-bytes fits), pow-bytes) refl

-- The last byte.
pub deserialize_last :
    (b i result : ℕ)
    → b < 256
    → i < 8
    → result < 256 ^ i
    → deserialize_loop (b ∷ []) i result ≡ signed (ltb 127 b) (result + b % 128 * 256 ^ i)
unfolding deserialize_loop
deserialize_last b i result hb hi fits =
    rw
      (
        and_0x80 b hb,
        and_0x7f b hb,
        bit_or_shifted (8 * i) result (b % 128) (rw pow-bytes fits),
        pow-bytes,
      )
      (ground arith)

pub serialize_loop_more :
    (neg : Bool) (a : ℕ) (smaller : (m : ℕ) → m < a → Acc ◌<◌ m)
    → 0 < a / 256
    → (w : Acc ◌<◌ (a / 256)) × (serialize_loop neg a (Acc.intro a smaller)
        ≡ a % 256 ∷ serialize_loop neg (a / 256) w)
unfolding serialize_loop
serialize_loop_more neg a smaller h =
    (smaller (a / 256) (quotient_smaller a h), rw (dif_pos (dec_lt 0 (a / 256)) le_prop h) refl)

pub serialize_loop_last :
    (neg : Bool) (a : ℕ) (w : Acc ◌<◌ a) → a < 256 → serialize_loop neg a w ≡ last_bytes neg a
unfolding serialize_loop
serialize_loop_last neg a (Acc.intro _ smaller) h =
    let e : a % 256 ≡ a = omega arith in
    let small : ¬ (0 < a / 256) = omega arith in
    rw (dif_neg (dec_lt 0 (a / 256)) small) (ap (last_bytes neg) e)

deserialize-last_bytes :
    (k i : ℕ) (neg : Bool) (a result : ℕ)
    → 0 < a
    → a < 256
    → 2 * a < 256 ^ suc k
    → i + suc k ≡ 8
    → result < 256 ^ i
    → deserialize_loop (last_bytes neg a) i result ≡ signed neg (result + a * 256 ^ i)
unfolding last_bytes
deserialize-last_bytes zero i neg a result pos_a small ha hi hr = ground (
  arith,
  and_0x80 a small,
  or_0x80 a,
  deserialize_last a i result,
  deserialize_last (a + 128) i result,
)
deserialize-last_bytes (suc k) i neg a result pos_a small ha hi hr = ground (
  arith,
  and_0x80 a small,
  or_0x80 a,
  deserialize_last a i result,
  deserialize_last (a + 128) i result,
  deserialize_inner a (0x80 ∷ []) i result,
  deserialize_inner a (0 ∷ []) i result,
  deserialize_last 0 (suc i) (result + a * 256 ^ i),
  deserialize_last 0x80 (suc i) (result + a * 256 ^ i),
  digit_fits result a i,
)

split_byte : (a i : ℕ) → a % 256 * 256 ^ i + a / 256 * 256 ^ suc i ≡ a * 256 ^ i
split_byte a i = omega (
  arith,
  ap (λ (t : ℕ). t * 256 ^ i) (div-add-mod a 256),
  ap (λ (t : ℕ). a / 256 * t) (pow_256 i),
)

-- Read back at index `i` where `k` bytes are left of the eight.
deserialize_loop-serialize_loop :
    (k i : ℕ) (neg : Bool) (a result : ℕ) (w : Acc ◌<◌ a)
    → 0 < a
    → 2 * a < 256 ^ k
    → i + k ≡ 8
    → result < 256 ^ i
    → deserialize_loop (serialize_loop neg a w) i result ≡ signed neg (result + a * 256 ^ i)
deserialize_loop-serialize_loop zero i neg a result w pos_a ha hi hr = absurd (omega arith)
deserialize_loop-serialize_loop (suc k) i neg a result (Acc.intro _ smaller) pos_a ha hi hr =
    elim (dec_lt 0 (a / 256)) [
      | yes more ↦
          let (w, e) = serialize_loop_more neg a smaller more in
          rw
            (
              e,
              deserialize_inner (a % 256) (serialize_loop neg (a / 256) w) i result
                  (serialize_loop-ne-nil neg (a / 256) w) hr,
              deserialize_loop-serialize_loop k (suc i) neg (a / 256) (result + a % 256 * 256 ^ i) w
                  more (omega (arith, pow_256 k)) (omega arith)
                  (digit_fits result (a % 256) i (omega arith) hr),
            )
            (ap (signed neg) (omega (arith, split_byte a i)))
      | no last ↦
          rw (serialize_loop_last neg a (Acc.intro a smaller) (omega arith))
            (deserialize-last_bytes k i neg a result pos_a (omega arith) ha hi hr)
    ]

pub signed-abs : (v : ℤ) → signed (is_negative v) (abs v) ≡ v
unfolding signed is_negative abs
signed-abs (pos n) = refl
signed-abs (negsuc n) = refl

-- The loop, from its beginning, reads the bytes of an integer.
pub deserialize_loop-serialize :
    (v : ℤ) → 0 < abs v → abs v < 2 ^ 63 → deserialize_loop (serialize v) 0 0 ≡ v
unfolding serialize
deserialize_loop-serialize v pos_v h =
    let e : (abs v == 0) ≡ false = ground arith in
    let one : abs v * 256 ^ 0 ≡ abs v = omega arith in
    rw e (
      deserialize_loop-serialize_loop 8 0 (is_negative v) (abs v) 0 (lt_wf.apply (abs v)) pos_v
        (omega arith) refl (omega arith)
      ∙ rw (one, zero-add) (signed-abs v))

-- Where there are one to nine bytes `deserialize` is its loop.
pub deserialize_looped :
    (bs : List ℕ) → 0 < length bs → length bs ≤ 9 → deserialize bs ≡ some (deserialize_loop bs 0 0)
unfolding deserialize
deserialize_looped [] one fits = absurd (omega (arith, one))
deserialize_looped (b ∷ bs) one fits =
    let within : ltb 9 (length (b ∷ bs)) ≡ false = ground (arith, fits) in rw (within) refl

length-last_bytes :
    (k : ℕ) (neg : Bool) (a : ℕ) → a < 256 → 2 * a < 256 ^ suc k → length (last_bytes neg a) ≤ suc k
unfolding last_bytes
length-last_bytes zero neg a small fits = ground (arith, and_0x80 a small, fits)
length-last_bytes (suc k) neg a small fits = ground arith

-- A number whose double has `k` bytes is written in `k` bytes.
length-serialize_loop :
    (k : ℕ) (neg : Bool) (a : ℕ) (w : Acc ◌<◌ a)
    → 0 < a
    → 2 * a < 256 ^ k
    → length (serialize_loop neg a w) ≤ k
length-serialize_loop zero neg a w pos_a fits = absurd (omega (arith, pos_a, fits))
length-serialize_loop (suc k) neg a (Acc.intro _ smaller) pos_a fits = elim (dec_lt 0 (a / 256)) [
  | yes more ↦
      let (w, e) = serialize_loop_more neg a smaller more in
      rw e (
        omega
          (arith, length-serialize_loop k neg (a / 256) w more (omega (arith, pow_256 k, fits))))
  | no last ↦
      rw (serialize_loop_last neg a (Acc.intro a smaller) (omega (arith, last)))
        (length-last_bytes k neg a (omega (arith, last)) fits)
]

length-serialize : (v : ℤ) → 0 < abs v → abs v < 2 ^ 63 → length (serialize v) ≤ 8
unfolding serialize
length-serialize v pos_v h =
    let e : (abs v == 0) ≡ false = ground arith in
    rw e (
      length-serialize_loop 8 (is_negative v) (abs v) (lt_wf.apply (abs v)) pos_v
        (omega (arith, h)))

serialize-ne-nil : (v : ℤ) → 0 < abs v → 0 < length (serialize v)
unfolding serialize
serialize-ne-nil v pos_v =
    let e : (abs v == 0) ≡ false = ground arith in
    rw e (serialize_loop-ne-nil (is_negative v) (abs v) (lt_wf.apply (abs v)))

-- Reading the bytes of an integer gives the integer, for every int64 but the lowest, whose
-- magnitude takes nine bytes.
pub deserialize-serialize :
    (v : ℤ) → 0 < abs v → abs v < 2 ^ 63 → deserialize (serialize v) ≡ some v
deserialize-serialize v pos_v h =
    deserialize_looped (serialize v) (serialize-ne-nil v pos_v)
      (omega (arith, length-serialize v pos_v h))
    ∙ ap some (deserialize_loop-serialize v pos_v h)
