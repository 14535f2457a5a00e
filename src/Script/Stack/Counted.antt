-- ===== src/Script/Stack/Counted.antt =====
-- The memory count through the other operations of include/gigamonkey/script/stack.hpp: those that
-- move elements, and those that change the bytes of one.
use gigamonkey.Base.{ℕ, zero, suc, ◌+◌, ◌-◌, ◌^◌, ◌<◌, ◌≡◌, refl, arith}
use gigamonkey.Base.{List, [], ◌∷◌, ◌++◌, some, ltb}
use gigamonkey.Base.{
  length, get_elem?, set, replicate, length-append, length-replicate, inl, inr, Bool-cases, ltb→lt,
}
use gigamonkey.Script.Action.{◌>>=◌, ◌>>◌, Ensures, on_done, on_throw, Keeps, Any}
use gigamonkey.Script.Stack.{
  Bytes, Stacks, get_main, put_main, stacktop, swap_elements, move_to_alt, move_from_alt, overwrite,
  append_to_top, padded, pad_right, minimally_encode_top, move_top, increase,
}
use gigamonkey.Script.Stack.Memory.{
  memory, memory-set, memory-get_elem?, increase_fits, IsSize, WellCounted, at_distance_cases,
  increase_cases, decrease_lem,
}
use gigamonkey.Sv.IntSerialization.{minimally_encode}
use gigamonkey.Sv.IntSerialization.Value.Encode.{length-minimally_encode}

get_elem?-set_found :
    (l : List Bytes) (i j : ℕ) {a b : Bytes}
    → get_elem? l i ≡ some a
    → get_elem? l j ≡ some b
    → get_elem? (set l i b) j ≡ some b
get_elem?-set_found [] i j p q = cc
get_elem?-set_found (x ∷ l) zero zero p q = refl
get_elem?-set_found (x ∷ l) zero (suc j) p q = q
get_elem?-set_found (x ∷ l) (suc i) zero p q = q
get_elem?-set_found (x ∷ l) (suc i) (suc j) p q = get_elem?-set_found l i j p q

-- Putting other elements of the same memory in the parent's vector.
put_main-Keeps :
    (s : Stacks) (l : List Bytes)
    → WellCounted s
    → memory l ≡ memory s.main
    → Ensures WellCounted Any (put_main l s)
put_main-Keeps s l i e =
    on_done tt record { counted = omega (arith, i.counted); within = i.within; limited = i.limited }

pub swap_elements-Keeps : (i j : ℕ) → Keeps WellCounted Any (swap_elements i j)
unfolding swap_elements
swap_elements-Keeps i j s h = elim (at_distance_cases s.main i s) [
  | inl (x, e) ↦ rw (e, ◌>>=◌) (on_throw h)
  | inr (a, e, _, p) ↦ elim (at_distance_cases s.main j s) [
    | inl (x, e') ↦ rw (e, ◌>>=◌, e', ◌>>=◌) (on_throw h)
    | inr (b, e', _, q) ↦
        rw (e, ◌>>=◌, e', ◌>>=◌)
          (put_main-Keeps s _ h (
            omega (
              arith,
              memory-set s.main (i - 1) b p,
              memory-set (set s.main (i - 1) b) (j - 1) a
                  (get_elem?-set_found s.main (i - 1) (j - 1) p q),
            )))
  ]
]

-- Neither way of lending an element changes what the two stacks take together.
move_top-Keeps :
    (from to : List Bytes) (moved : List Bytes → List Bytes → Stacks) (s : Stacks)
    → WellCounted s
    → ((m n : List Bytes) → memory m + memory n ≡ memory from + memory to → WellCounted (moved m n))
    → Ensures WellCounted Any (move_top from to moved s)
unfolding move_top memory
move_top-Keeps [] to moved s i h = on_throw i
move_top-Keeps (v ∷ from) to moved s i h = on_done tt (h from (v ∷ to) (omega arith))

pub move_to_alt-Keeps : Keeps WellCounted Any move_to_alt
unfolding move_to_alt
move_to_alt-Keeps s i =
    move_top-Keeps s.main s.alt _ s i
      λ m n e. record { counted = omega (arith, i.counted); within = i.within; limited = i.limited }

pub move_from_alt-Keeps : Keeps WellCounted Any move_from_alt
unfolding move_from_alt
move_from_alt-Keeps s i =
    move_top-Keeps s.alt s.main _ s i
      λ m n e. record { counted = omega (arith, i.counted); within = i.within; limited = i.limited }

pub overwrite-Keeps :
    (k : ℕ) (new : Bytes) (s : Stacks) {v : Bytes}
    → WellCounted s
    → get_elem? s.main (k - 1) ≡ some v
    → length new ≡ length v
    → Ensures WellCounted Any (overwrite k new s)
unfolding overwrite
overwrite-Keeps k new s i g e =
    put_main-Keeps s _ i (omega (arith, memory-set s.main (k - 1) new g))

-- The top element grows by `n` bytes, if the limit allows it.
grow_top-Keeps :
    (n : ℕ) (v w : Bytes) (s : Stacks)
    → WellCounted s
    → get_elem? s.main 0 ≡ some v
    → n < 2 ^ 63
    → length w ≡ length v + n
    → Ensures WellCounted Any ((increase n >> (get_main >>= λ l. put_main (set l 0 w))) s)
grow_top-Keeps n v w s i g h e = elim (increase_cases n s i.within i.limited h) [
  | inl full ↦ rw (full, ◌>>=◌) (on_throw i)
  | inr (grown, fits) ↦
      rw (grown, ◌>>=◌)
        (on_done tt record {
          counted = omega (arith, i.counted, memory-set s.main 0 w g);
          within = fits;
          limited = i.limited;
        })
]

pub append_to_top-Keeps : (w : Bytes) → IsSize w → Keeps WellCounted Any (append_to_top w)
unfolding append_to_top stacktop
append_to_top-Keeps w h s i = elim (at_distance_cases s.main 1 s) [
  | inl (x, e) ↦ rw (e, ◌>>=◌) (on_throw i)
  | inr (v, e, _, g) ↦
      rw (e, ◌>>=◌) (grow_top-Keeps (length w) v (v ++ w) s i g (omega arith) (length-append v w))
]

length-padded :
    (v : Bytes) (size signbit : ℕ) → length v < size → length (padded v size signbit) ≡ size
unfolding padded
length-padded v size signbit h = omega (
  arith,
  length-append v (replicate (size - length v - 1) 0 ++ (signbit ∷ [])),
  length-append (replicate (size - length v - 1) 0) (signbit ∷ []),
  length-replicate {A = ℕ} (size - length v - 1) 0,
)

pub pad_right-Keeps :
    (size signbit : ℕ) → size < 2 ^ 63 → Keeps WellCounted Any (pad_right size signbit)
unfolding pad_right stacktop
pad_right-Keeps size signbit h s i = elim (at_distance_cases s.main 1 s) [
  | inl (x, e) ↦ rw (e, ◌>>=◌) (on_throw i)
  | inr (v, e, _, g) ↦ elim (Bool-cases (ltb (length v) size)) [
    | inl short ↦
        let lt = ltb→lt (length v) size short in
        rw (e, ◌>>=◌, short)
          (grow_top-Keeps (size - length v) v (padded v size signbit) s i g (omega arith)
            (omega (arith, lt, length-padded v size signbit lt)))
    | inr long ↦ rw (e, ◌>>=◌, long) (on_done tt i)
  ]
]

pub minimally_encode_top-Keeps : Keeps WellCounted Any minimally_encode_top
unfolding minimally_encode_top stacktop
minimally_encode_top-Keeps s i = elim (at_distance_cases s.main 1 s) [
  | inl (x, e) ↦ rw (e, ◌>>=◌) (on_throw i)
  | inr (v, e, _, g) ↦
      let shorter = length-minimally_encode v in
      let held = memory-get_elem? s.main 0 g in
      rw
        (
          e,
          ◌>>=◌,
          decrease_lem (length v) s (omega (arith, held, i.counted))
              (omega (arith, i.within, i.limited)),
          increase_fits (length (minimally_encode v).0)
              (record s {
                combined_size = s.combined_size - length v;
                main = set s.main 0 (minimally_encode v).0;
              })
              (omega (arith, held, shorter, i.counted, i.within)) i.limited,
        )
        (on_done tt record {
          counted = omega (arith, held, i.counted, memory-set s.main 0 (minimally_encode v).0 g);
          within = omega (arith, held, shorter, i.counted, i.within);
          limited = i.limited;
        })
]
