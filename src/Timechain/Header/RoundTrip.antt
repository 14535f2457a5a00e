-- ===== src/Timechain/Header/RoundTrip.antt =====
-- Timechain/Header.antt: a header and its 80 bytes are the same thing.
use gigamonkey.Base.{
  ℕ, suc, ◌+◌, ◌-◌, ◌^◌, ◌<◌, ◌≤◌, ◌≡◌, refl, ap, sym, ◌∙◌, arith, List, [], ◌∷◌, ◌++◌,
  append_assoc, append-nil, some, Bool, ◌&&◌,
}
use gigamonkey.Base.{
  length, length-take, length-drop, take, drop, All, All-take, All-drop, length-zero, drop-drop,
  take-append-drop, take-length-append,
}
use gigamonkey.Base.Bytes.{
  IsByte, to_little, from_little, length-to_little, from_little-to_little, to_little-from_little,
}
use gigamonkey.P2p.VarInt.{Read}
use gigamonkey.P2p.VarInt.RoundTrip.{read_bytes_prefix, read_little-to_little}
use gigamonkey.Timechain.Header.{
  Header, range, header_of_slice, header_bytes, write_header, version_of, previous_of,
  merkle_root_of, timestamp_of, target_of, nonce_of, read_header, slice_valid, is_valid,
  string_valid, header_valid, slice_hash, header_hash,
}
use mathlib.Core.Path.{subst}

-- The fields are within the widths of their types.
unfoldable pub FitsHeader : Header → Type 0
FitsHeader h =
    (h.version < 2 ^ 32)
    × (length h.previous ≡ 32)
    × (length h.merkle_root ≡ 32)
    × (h.timestamp < 2 ^ 32)
    × (h.target < 2 ^ 32)
    × (h.nonce < 2 ^ 32)

drop_skip : (a x : List ℕ) (f : ℕ) → drop (length a + f) (a ++ x) ≡ drop f x
drop_skip [] x f = ap (λ n. drop n x) (omega arith)
drop_skip (b ∷ a) x f =
    let size : length (b ∷ a) + f ≡ suc (length a + f) = omega arith in
    ap (λ n. drop n (b ∷ (a ++ x))) size ∙ drop_skip a x f

range_skip :
    (a x : List ℕ) (k f l : ℕ) → length a ≡ k → range (k + f) (k + l) (a ++ x) ≡ range f l x
unfolding range
range_skip a x k f l size =
    let width : k + l - (k + f) ≡ l - f = omega arith in
    ap (λ n. take n (drop (k + f) (a ++ x))) width
    ∙ ap (λ n. take (l - f) (drop (n + f) (a ++ x))) (sym size)
    ∙ ap (take (l - f)) (drop_skip a x f)

range_front : (a x : List ℕ) (l : ℕ) → length a ≡ l → range 0 l (a ++ x) ≡ a
unfolding range
range_front a x l size =
    let width : l - 0 ≡ length a = omega (arith, size) in
    ap (λ n. take n (a ++ x)) width ∙ take-length-append a x

range_whole : (a : List ℕ) (l : ℕ) → length a ≡ l → range 0 l a ≡ a
range_whole a l size = ap (range 0 l) (sym (append-nil a)) ∙ range_front a [] l size

-- six parts of 80 bytes
module _ (v p m s t n : List ℕ) (v4 : length v ≡ 4) (p32 : length p ≡ 32) (m32 : length m ≡ 32)
    (s4 : length s ≡ 4) (t4 : length t ≡ 4) (n4 : length n ≡ 4) where
  abbrev whole : List ℕ
  whole = v ++ (p ++ (m ++ (s ++ (t ++ n))))

  first_part : range 0 4 whole ≡ v
  first_part = range_front v (p ++ (m ++ (s ++ (t ++ n)))) 4 v4

  second_part : range 4 36 whole ≡ p
  second_part =
      range_skip v (p ++ (m ++ (s ++ (t ++ n)))) 4 0 32 v4
      ∙ range_front p (m ++ (s ++ (t ++ n))) 32 p32

  third_part : range 36 68 whole ≡ m
  third_part =
      range_skip v (p ++ (m ++ (s ++ (t ++ n)))) 4 32 64 v4
      ∙ range_skip p (m ++ (s ++ (t ++ n))) 32 0 32 p32
      ∙ range_front m (s ++ (t ++ n)) 32 m32

  after : (f l : ℕ) → range (68 + f) (68 + l) whole ≡ range f l (s ++ (t ++ n))
  after f l =
      let low : 68 + f ≡ 4 + (32 + (32 + f)) = omega arith in
      let high : 68 + l ≡ 4 + (32 + (32 + l)) = omega arith in
      ap (λ k. range k (68 + l) whole) low
      ∙ ap (λ k. range (4 + (32 + (32 + f))) k whole) high
      ∙ range_skip v (p ++ (m ++ (s ++ (t ++ n)))) 4 (32 + (32 + f)) (32 + (32 + l)) v4
      ∙ range_skip p (m ++ (s ++ (t ++ n))) 32 (32 + f) (32 + l) p32
      ∙ range_skip m (s ++ (t ++ n)) 32 f l m32

  fourth_part : range 68 72 whole ≡ s
  fourth_part = after 0 4 ∙ range_front s (t ++ n) 4 s4

  fifth_part : range 72 76 whole ≡ t
  fifth_part = after 4 8 ∙ range_skip s (t ++ n) 4 0 4 s4 ∙ range_front t n 4 t4

  sixth_part : range 76 80 whole ≡ n
  sixth_part =
      after 8 12 ∙ range_skip s (t ++ n) 4 4 8 s4 ∙ range_skip t n 4 0 4 t4 ∙ range_whole n 4 n4

-- the parts of a written header, one after the other
abbrev tail : Header → List ℕ
tail h = to_little 4 h.timestamp ++ (to_little 4 h.target ++ to_little 4 h.nonce)

write_header-append :
    (w : List ℕ) (h : Header)
    → write_header w h ≡ w ++ (to_little 4 h.version ++ (h.previous ++ (h.merkle_root ++ tail h)))
unfolding write_header
write_header-append w h =
    rw (append_assoc, append_assoc, append_assoc, append_assoc, append_assoc) refl

-- A header that fits its fields is the header of its bytes.
pub header_of_slice-header_bytes :
    (h : Header) → FitsHeader h → header_of_slice (header_bytes h) ≡ h
unfolding header_of_slice header_bytes FitsHeader version_of previous_of merkle_root_of timestamp_of
    target_of nonce_of
header_of_slice-header_bytes h (version, previous, root, stamp, target, nonce) =
    let v : List ℕ = to_little 4 h.version in
    let s : List ℕ = to_little 4 h.timestamp in
    let t : List ℕ = to_little 4 h.target in
    let n : List ℕ = to_little 4 h.nonce in
    let v4 : length v ≡ 4 = length-to_little 4 h.version in
    let s4 : length s ≡ 4 = length-to_little 4 h.timestamp in
    let t4 : length t ≡ 4 = length-to_little 4 h.target in
    let n4 : length n ≡ 4 = length-to_little 4 h.nonce in
    rw
      (
        write_header-append [] h,
        first_part v h.previous h.merkle_root s t n v4 previous root s4 t4 n4,
        second_part v h.previous h.merkle_root s t n v4 previous root s4 t4 n4,
        third_part v h.previous h.merkle_root s t n v4 previous root s4 t4 n4,
        fourth_part v h.previous h.merkle_root s t n v4 previous root s4 t4 n4,
        fifth_part v h.previous h.merkle_root s t n v4 previous root s4 t4 n4,
        sixth_part v h.previous h.merkle_root s t n v4 previous root s4 t4 n4,
        from_little-to_little 4 h.version version,
        from_little-to_little 4 h.timestamp stamp,
        from_little-to_little 4 h.target target,
        from_little-to_little 4 h.nonce nonce,
      )
      refl

cut : (f l : ℕ) (x : List ℕ) → f ≤ l → range f l x ++ drop l x ≡ drop f x
unfolding range
cut f l x less =
    let size : l ≡ f + (l - f) = omega (arith, less) in
    ap (λ d. take (l - f) (drop f x) ++ d) (drop-drop l f (l - f) x size)
    ∙ take-append-drop (l - f) (drop f x)

word :
    (f l : ℕ) (x : List ℕ)
    → All IsByte x
    → l ≤ length x
    → l ≡ f + 4
    → to_little 4 (from_little (range f l x)) ≡ range f l x
unfolding range
word f l x bytes fits four =
    let size : length (take (l - f) (drop f x)) ≡ 4 =
      omega (arith, length-take (l - f) (drop f x), length-drop f x, fits, four) in
    subst (λ k. to_little k (from_little (take (l - f) (drop f x))) ≡ take (l - f) (drop f x)) size
      (to_little-from_little (take (l - f) (drop f x))
        (All-take IsByte (l - f) (drop f x) (All-drop IsByte f x bytes)))

-- 80 bytes are the bytes of the header they hold.
pub header_bytes-header_of_slice :
    (x : List ℕ) → All IsByte x → length x ≡ 80 → header_bytes (header_of_slice x) ≡ x
unfolding header_of_slice header_bytes version_of previous_of merkle_root_of timestamp_of target_of
    nonce_of
header_bytes-header_of_slice x bytes size =
    let nothing : drop 80 x ≡ [] =
      length-zero (drop 80 x) (omega (arith, length-drop 80 x, size)) in
    write_header-append [] (header_of_slice x)
    ∙ rw
        (
          word 0 4 x bytes (omega (arith, size)) refl,
          word 68 72 x bytes (omega (arith, size)) refl,
          word 72 76 x bytes (omega (arith, size)) refl,
          word 76 80 x bytes (omega (arith, size)) refl,
        )
        (ap
            (λ n.
              range 0 4 x
              ++ (range 4 36 x ++ (range 36 68 x ++ (range 68 72 x ++ (range 72 76 x ++ n)))))
            (sym (append-nil (range 76 80 x))
              ∙ ap (λ d. range 76 80 x ++ d) (sym nothing)
              ∙ cut 76 80 x (omega arith))
          ∙ ap (λ n. range 0 4 x ++ (range 4 36 x ++ (range 36 68 x ++ (range 68 72 x ++ n))))
              (cut 72 76 x (omega arith))
          ∙ ap (λ n. range 0 4 x ++ (range 4 36 x ++ (range 36 68 x ++ n)))
              (cut 68 72 x (omega arith))
          ∙ ap (λ n. range 0 4 x ++ (range 4 36 x ++ n)) (cut 36 68 x (omega arith))
          ∙ ap (λ n. range 0 4 x ++ n) (cut 4 36 x (omega arith))
          ∙ cut 0 4 x (omega arith))

and_comm : (a b : Bool) → (a && b) ≡ (b && a)
and_comm a b = ground arith

-- Whether 80 bytes are valid is whether the header they hold is, and they have its hash.
pub slice_valid-is_valid :
    (sha2_256 : List ℕ → List ℕ) (x : List ℕ)
    → All IsByte x
    → length x ≡ 80
    → (slice_valid sha2_256 x ≡ is_valid sha2_256 (header_of_slice x))
      × (slice_hash sha2_256 x ≡ header_hash sha2_256 (header_of_slice x))
unfolding slice_valid is_valid slice_hash header_hash
slice_valid-is_valid sha2_256 x bytes size =
    rw (header_bytes-header_of_slice x bytes size)
      (and_comm (header_valid (header_of_slice x)) (string_valid sha2_256 x), refl)

pub read_header-write_header :
    (past_end : Read ℕ) (h : Header) (rest : List ℕ)
    → FitsHeader h
    → read_header past_end (write_header [] h ++ rest) ≡ some (h, rest)
unfolding read_header FitsHeader
read_header-write_header past_end h rest (version, previous, root, stamp, target, nonce) =
    let r5 : List ℕ = to_little 4 h.nonce ++ rest in
    let r4 : List ℕ = to_little 4 h.target ++ r5 in
    let r3 : List ℕ = to_little 4 h.timestamp ++ r4 in
    let r2 : List ℕ = h.merkle_root ++ r3 in
    let r1 : List ℕ = h.previous ++ r2 in
    rw
      (
        write_header-append [] h,
        append_assoc,
        append_assoc,
        append_assoc,
        append_assoc,
        append_assoc,
        append_assoc,
        read_little-to_little past_end 4 h.version r1 version,
        read_bytes_prefix past_end 32 h.previous r2 previous,
        read_bytes_prefix past_end 32 h.merkle_root r3 root,
        read_little-to_little past_end 4 h.timestamp r4 stamp,
        read_little-to_little past_end 4 h.target r5 target,
        read_little-to_little past_end 4 h.nonce rest nonce,
      )
      refl
