-- ===== src/Script/Instruction/Encodings.antt =====
-- src/gigamonkey/script/instruction.cpp: the bytes of a program that can be written.
use gigamonkey.Base.{
  ℕ, suc, ◌+◌, ◌^◌, ◌<◌, ◌≤◌, ◌≡◌, ◌≢◌, refl, ap, sym, ◌∙◌, List, [], ◌∷◌, ◌++◌, false, ◌==◌, ◌&&◌,
  some,
}
use gigamonkey.Base.{arith, length, All, length-append, append_assoc, append-nil, inl, inr, ◌⊎◌}
use gigamonkey.Base.Bytes.{to_little}
use gigamonkey.Script.Error.{ScriptError}
use gigamonkey.Script.Instruction.{Instruction, write, serialized_size, verify, verify_instruction}
use gigamonkey.Script.Instruction.Size.{length-write_one, over_zeros_full}
use gigamonkey.Script.Instruction.Program.{
  Program, Control, is_empty, compile, write_program, program_size, nest,
}
use gigamonkey.Script.Opcode.{op_return, op_pushdata1, op_pushdata2, op_pushdata4}

-- An op's length field holds the size of its data. `verify_instruction` refuses less than this.
abbrev pub IsWritable : Instruction → Type 0
IsWritable i =
    (verify_instruction i ≡ ScriptError.ok)
    × (i.op ≢ op_pushdata4)
    × (i.op ≡ op_pushdata1 → length i.payload < 2 ^ 8)
    × (i.op ≡ op_pushdata2 → length i.payload < 2 ^ 16)

-- The four forms of an instruction that can be written.
pub kinds :
    (i : Instruction)
    → IsWritable i
    → ((i.op ≤ 75) × (i.op ≡ length i.payload))
      ⊎ (((i.op ≡ op_pushdata1) × (length i.payload < 256))
          ⊎ (((i.op ≡ op_pushdata2) × (length i.payload < 2 ^ 16))
              ⊎ ((78 < i.op) × (length i.payload ≡ 0))))
unfolding verify_instruction
kinds i (ok, not4, fits1, fits2) = ground (arith, ok, not4, fits1, fits2)

pub write-append : (w : List ℕ) (i : Instruction) → write w i ≡ w ++ write [] i
unfolding write
write-append w i =
    let o = i.op in
    let d = i.payload in
    ground (
      arith,
      append_assoc w (o ∷ []) d,
      append_assoc w (op_pushdata1 ∷ to_little 1 (length d)) d,
      append_assoc w (op_pushdata2 ∷ to_little 2 (length d)) d,
      append_assoc w (op_pushdata2 ∷ to_little 4 (length d)) d,
    )

-- The branches of the program are closed in order, and an OP_RETURN stands inside of one.
abbrev pub IsNested : Control → Program → Type 0
IsNested x [] = Unit {0}
IsNested x (i ∷ p) =
    ((i.op == op_return && is_empty x) ≡ false)
    × ((x' : Control) × (nest i.op x ≡ some x') × IsNested x' p)

abbrev pub encodings : Program → List ℕ
encodings [] = []
encodings (i ∷ p) = write [] i ++ encodings p

pub write_program-encodings : (w : List ℕ) (p : Program) → write_program w p ≡ w ++ encodings p
unfolding write_program
write_program-encodings w [] = sym (append-nil w)
write_program-encodings w (i ∷ p) =
    write_program-encodings (write w i) p
    ∙ ap (λ t. t ++ encodings p) (write-append w i)
    ∙ append_assoc w (write [] i) (encodings p)

pub write-pos : (i : Instruction) → 1 ≤ length (write [] i)
unfolding write
write-pos i = ground arith

pub cons-form : (l : List ℕ) → 1 ≤ length l → (b : ℕ) × (bs : List ℕ) × (l ≡ b ∷ bs)
cons-form [] h = absurd (omega (arith, h))
cons-form (b ∷ bs) h = (b, bs, refl)

pub write-cons : (i : Instruction) → (b : ℕ) × (bs : List ℕ) × (write [] i ≡ b ∷ bs)
write-cons i = cons-form (write [] i) (write-pos i)

pub verify-zero :
    (i : Instruction) → verify_instruction i ≡ ScriptError.ok → verify i 0 ≡ ScriptError.ok
unfolding verify
verify-zero i h = rw h

pub length-encodings : (p : Program) → length p ≤ length (encodings p)
length-encodings [] = omega arith
length-encodings (i ∷ p) =
    let (b, bs, first) = write-cons i in
    let one : length (write [] i) ≡ suc (length bs) = ap (λ (t : List ℕ). length t) first in
    omega (arith, one, length-append (write [] i) (encodings p), length-encodings p)

pub write-exact :
    (w : List ℕ) (i : Instruction)
    → IsWritable i
    → length (write w i) ≡ length w + serialized_size i
unfolding write serialized_size
write-exact w i ok = elim (kinds i ok) [
  | inl (short, e) ↦ (length-write_one w i (omega (arith, short, e))).1 (omega (arith, short))
  | inr (inl (e, h)) ↦ (length-write_one w i (omega (arith, h))).1 (omega (arith, e))
  | inr (inr (inl (e, h))) ↦ (length-write_one w i (omega (arith, h))).1 (omega (arith, e))
  | inr (inr (inr (e, h))) ↦ ground (arith, e, h, length-append w (i.op ∷ []))
]

pub program-exact :
    (w : List ℕ) (p : Program)
    → All IsWritable p
    → length (write_program w p) ≡ length w + program_size p
unfolding write_program program_size
program-exact w [] h = omega arith
program-exact w (i ∷ p) (hi, h) = omega (arith, program-exact (write w i) p h, write-exact w i hi)

pub compile-encodings : (p : Program) → All IsWritable p → compile p ≡ encodings p
unfolding compile
compile-encodings p w =
    over_zeros_full (program_size p) (write_program [] p) (omega (arith, program-exact [] p w))
    ∙ write_program-encodings [] p
