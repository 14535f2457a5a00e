-- ===== src/Script/Counter/Compiled.antt =====
-- src/gigamonkey/script/counter.cpp and `get_push_data` of src/gigamonkey/script/machine.cpp, on the
-- bytes that src/gigamonkey/script/instruction.cpp writes.
use gigamonkey.Base.{
  ℕ, zero, suc, ◌^◌, ◌<◌, ◌≤◌, ◌≡◌, refl, List, [], ◌∷◌, ◌++◌, true, arith, ap, ◌∙◌, sym,
}
use gigamonkey.Base.{
  All, length, take, length-append, take-length-append, inl, inr, append_assoc, drop,
  drop-length-append,
}
use gigamonkey.Base.Bytes.{to_little, from_little, length-to_little, from_little-to_little}
use gigamonkey.Script.Counter.{instruction_size, read_instruction}
use gigamonkey.Script.Instruction.{Instruction, write}
use gigamonkey.Script.Instruction.Encodings.{
  IsWritable, kinds, encodings, write-cons, compile-encodings, length-encodings,
}
use gigamonkey.Script.Instruction.Program.{Program, compile}
use gigamonkey.Script.Counter.Walk.{instructions}
use gigamonkey.Script.Machine.Step.{get_push_data}
use gigamonkey.Script.Opcode.{is_push_data}

take_prefix : (k : ℕ) (xs ys : List ℕ) → length xs ≡ k → take k (xs ++ ys) ≡ xs
take_prefix k xs ys h = ap (λ n. take n (xs ++ ys)) (sym h) ∙ take-length-append xs ys

pub header :
    (k n : ℕ) (rest : List ℕ) → n < 256 ^ k → from_little (take k (to_little k n ++ rest)) ≡ n
header k n rest h =
    ap from_little (take_prefix k (to_little k n) rest (length-to_little k n))
    ∙ from_little-to_little k n h

-- The size that the counter finds is that of what was written.
instruction_size-write :
    (i : Instruction) (rest : List ℕ)
    → IsWritable i
    → instruction_size (write [] i ++ rest) ≡ length (write [] i)
unfolding instruction_size write
instruction_size-write i rest w =
    let d = i.payload in
    elim (kinds i w) [
      | inl (short, e) ↦ ground (arith, e, short, length-append d rest)
      | inr (inl (e, h)) ↦ ground (
        arith,
        e,
        h,
        append_assoc (to_little 1 (length d)) d rest,
        header 1 (length d) (d ++ rest) h,
        length-append (to_little 1 (length d)) (d ++ rest),
        length-append (to_little 1 (length d)) d,
        length-append d rest,
        length-to_little 1 (length d),
      )
      | inr (inr (inl (e, h))) ↦ ground (
        arith,
        e,
        h,
        append_assoc (to_little 2 (length d)) d rest,
        header 2 (length d) (d ++ rest) h,
        length-append (to_little 2 (length d)) (d ++ rest),
        length-append (to_little 2 (length d)) d,
        length-append d rest,
        length-to_little 2 (length d),
      )
      | inr (inr (inr (e, h))) ↦ ground (arith, e, h)
    ]

-- The counter finds each instruction as it was written, whatever follows it.
pub read_instruction-write :
    (i : Instruction) (rest : List ℕ)
    → IsWritable i
    → read_instruction (write [] i ++ rest) ≡ write [] i
unfolding read_instruction
read_instruction-write i rest w =
    ap (λ n. take n (write [] i ++ rest)) (instruction_size-write i rest w)
    ∙ take-length-append (write [] i) rest

drop_prefix : (k : ℕ) (xs ys : List ℕ) → length xs ≡ k → drop k (xs ++ ys) ≡ ys
drop_prefix k xs ys h = ap (λ n. drop n (xs ++ ys)) (sym h) ∙ drop-length-append xs ys

-- What the machine pushes for an instruction that pushes data is the instruction's data.
pub get_push_data-write :
    (i : Instruction)
    → IsWritable i
    → is_push_data i.op ≡ true
    → get_push_data (write [] i) ≡ i.payload
unfolding get_push_data write
get_push_data-write i w push =
    let d = i.payload in
    elim (kinds i w) [
      | inl (short, e) ↦ ground (arith, e, short)
      | inr (inl (e, h)) ↦
          ground
            (arith, e, drop_prefix 1 (to_little 1 (length d)) d (length-to_little 1 (length d)))
      | inr (inr (inl (e, h))) ↦
          ground
            (arith, e, drop_prefix 2 (to_little 2 (length d)) d (length-to_little 2 (length d)))
      | inr (inr (inr (e, h))) ↦ ground (arith, e, push)
    ]

abbrev pub written : Program → List (List ℕ)
written [] = []
written (i ∷ p) = write [] i ∷ written p

instructions-encodings :
    (fuel : ℕ) (p : Program)
    → All IsWritable p
    → length p ≤ fuel
    → instructions fuel (encodings p) ≡ written p
instructions-encodings zero [] w h = refl
instructions-encodings zero (i ∷ p) w h = absurd (omega (arith, h))
instructions-encodings (suc fuel) [] w h = refl
instructions-encodings (suc fuel) (i ∷ p) (wi, w) h =
    let (b, bs, first) = write-cons i in
    let read = read_instruction-write i (encodings p) wi in
    instructions-cons fuel (write [] i ++ encodings p) b (bs ++ encodings p)
      (ap (λ t. t ++ encodings p) first)
    ∙ ap (λ t. t ∷ instructions fuel (drop (length t) (write [] i ++ encodings p))) read
    ∙ ap (λ t. write [] i ∷ instructions fuel t) (drop-length-append (write [] i) (encodings p))
    ∙ ap (λ t. write [] i ∷ t) (instructions-encodings fuel p w (omega (arith, h)))
  where
    instructions-cons :
        (fuel : ℕ) (s : List ℕ) (x : ℕ) (xs : List ℕ)
        → s ≡ x ∷ xs
        → instructions (suc fuel) s
          ≡ read_instruction s ∷ instructions fuel (drop (length (read_instruction s)) s)
    instructions-cons fuel s x xs h = rw h

-- The instructions that the counter visits in a compiled program are those of the program, where
-- they are valid, without OP_PUSHDATA4 and without data too long for their length fields.
pub instructions-compile :
    (p : Program) → All IsWritable p → instructions (length (compile p)) (compile p) ≡ written p
instructions-compile p w =
    ap (λ b. instructions (length b) b) (compile-encodings p w)
    ∙ instructions-encodings (length (encodings p)) p w (length-encodings p)
