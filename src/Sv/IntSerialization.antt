-- ===== src/Sv/IntSerialization.antt =====
-- include/sv/script/int_serialization.h: signed integers as bytes, lowest first, with the sign in
-- the top bit of the last byte.
pub mod RoundTrip
pub mod Value
pub mod Minimal
use Prim.Native.Nat.{bit_and, bit_or}
use mathlib.Core.List.{reverse}
use mathlib.Core.Logic.{dite}
use mathlib.Core.WellFounded.{Acc}
use native.Mathlib.Decide.{dec_lt}
use gigamonkey.Base.{ℕ, zero, suc, ◌+◌, ◌-◌, ◌*◌, ◌/◌, ◌%◌, ◌^◌, ◌<◌, arith}
use gigamonkey.Base.{Option, none, some}
use gigamonkey.Base.{Bool, true, false, List, [], ◌∷◌, leb, ltb, ◌==◌, ◌!=◌, if◌then◌else◌, length}
use gigamonkey.Base.Int.{ℤ, pos, negsuc}
use gigamonkey.Base.Order.{lt_wf}

-- `abs`: the magnitude, as a uint64. For INT64_MIN it is 2 ^ 63.
unfoldable pub abs : ℤ → ℕ
abs (pos n) = n
abs (negsuc n) = suc n

-- `value < 0`
unfoldable pub is_negative : ℤ → Bool
is_negative (pos n) = false
is_negative (negsuc n) = true

-- `-result`, and a magnitude under a sign
unfoldable pub signed : Bool → ℕ → ℤ
signed true (suc n) = negsuc n
signed true zero = pos 0
signed false n = pos n

-- the last byte, or the last two
unfoldable pub last_bytes : Bool → ℕ → List ℕ
last_bytes neg tmp =
    if bit_and tmp 0x80 != 0
    then tmp ∷ (if neg then 0x80 else 0) ∷ []
    else (if neg then bit_or tmp 0x80 else tmp) ∷ []

pub quotient_smaller : (a : ℕ) → 0 < a / 256 → a / 256 < a
quotient_smaller a h = omega arith

-- The loop of `serialize`: `absvalue & 0xff` is `% 256`, `absvalue >>= 8` is `/ 256`.
unfoldable pub serialize_loop : Bool → (absvalue : ℕ) → Acc ◌<◌ absvalue → List ℕ
serialize_loop neg absvalue (Acc.intro _ smaller) =
    let tmp = absvalue % 256 in
    dite (dec_lt 0 (absvalue / 256))
      (λ more.
        tmp ∷ serialize_loop neg (absvalue / 256) (smaller _ (quotient_smaller absvalue more)))
      (λ _. last_bytes neg tmp)

unfoldable pub serialize : ℤ → List ℕ
serialize value =
    let bytes = serialize_loop (is_negative value) (abs value) (lt_wf.apply (abs value)) in
    if abs value == 0 then [] else bytes

-- a word as an int64
unfoldable pub wrap_int64 : ℕ → ℤ
wrap_int64 w =
    if ltb (w % 2 ^ 64) (2 ^ 63) then pos (w % 2 ^ 64) else negsuc (2 ^ 64 - 1 - w % 2 ^ 64)

-- The loop of `deserialize<int64_t>` and what follows it, at index `i`. `result` is the word that is
-- read so far; past eight bytes it is the int64 of that word, and the last byte is not read.
unfoldable pub deserialize_loop : List ℕ → (i result : ℕ) → ℤ
deserialize_loop [] i result = pos result
deserialize_loop (b ∷ []) i result =
    if ltb 8 (suc i)
    then wrap_int64 result
    else signed (bit_and b 0x80 != 0) (bit_or result (bit_and b 0x7f * 2 ^ (8 * i)))
deserialize_loop (b ∷ c ∷ bs) i result =
    deserialize_loop (c ∷ bs) (suc i) (bit_or result (b * 2 ^ (8 * i)))

-- `deserialize<int64_t>`. The assertion `f != l` rules out the empty input, and from ten bytes on an
-- int64 is shifted by 64 bits, which is undefined: both are `none`.
unfoldable pub deserialize : List ℕ → Option ℤ
deserialize [] = none
deserialize (b ∷ bs) =
    if ltb 9 (length (b ∷ bs)) then none else some (deserialize_loop (b ∷ bs) 0 0)

-- `span.back ()`, and `span[size - 2]`
unfoldable pub back : List ℕ → ℕ
back [] = 0
back (b ∷ []) = b
back (b ∷ c ∷ bs) = back (c ∷ bs)

unfoldable pub before_back : List ℕ → ℕ
before_back [] = 0
before_back (b ∷ []) = 0
before_back (b ∷ c ∷ []) = b
before_back (b ∷ c ∷ d ∷ bs) = before_back (c ∷ d ∷ bs)

-- `IsMinimallyEncoded`
unfoldable pub is_minimally_encoded : List ℕ → ℕ → Bool
is_minimally_encoded span max_size =
    if ltb max_size (length span)
    then false
    else if ltb 0 (length span)
    then if bit_and (back span) 0x7f == 0
      then if leb (length span) 1
        then false
        else if bit_and (before_back span) 0x80 == 0
        then false
        else true
      else true
    else true

-- The loop of `MinimallyEncode` over what precedes the last byte, from its end: both lists are
-- reversed.
unfoldable pub trim : ℕ → List ℕ → List ℕ
trim last [] = []
trim last (b ∷ front) =
    let rest = trim last front in
    if b != 0 then if bit_and b 0x80 != 0 then last ∷ b ∷ front else bit_or b last ∷ front else rest

-- `MinimallyEncode`: the new data, and whether it was changed.
unfoldable pub minimally_encode_reversed : List ℕ → List ℕ × Bool
minimally_encode_reversed [] = ([], false)
minimally_encode_reversed (last ∷ []) =
    if bit_and last 0x7f != 0 then (last ∷ [], false) else ([], true)
minimally_encode_reversed (last ∷ b ∷ front) =
    if bit_and last 0x7f != 0
    then (last ∷ b ∷ front, false)
    else if bit_and b 0x80 != 0
    then (last ∷ b ∷ front, false)
    else (trim last (b ∷ front), true)

unfoldable pub minimally_encode : List ℕ → List ℕ × Bool
minimally_encode bytes =
    let (out, changed) = minimally_encode_reversed (reverse bytes) in (reverse out, changed)
