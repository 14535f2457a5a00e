-- ===== src/Script/Instruction/Size.antt =====
-- src/gigamonkey/script/instruction.cpp: the bytes of an instruction are as many as
-- `serialized_size` says.
use gigamonkey.Base.{ℕ, ◌+◌, ◌-◌, ◌^◌, ◌<◌, ◌≤◌, ◌≡◌, ◌≢◌, ap, ◌∙◌, List, [], ◌∷◌, ◌++◌}
use gigamonkey.Base.{
  arith, length, All, drop, replicate, length-append, length-drop, length-replicate, append-nil,
  length-zero,
}
use gigamonkey.Base.Bytes.{to_little, length-to_little}
use gigamonkey.Script.Instruction.{Instruction, write, serialized_size}
use gigamonkey.Script.Instruction.Program.{
  Program, over_zeros, compile, compile_instruction, write_program, program_size,
}
use gigamonkey.Script.Opcode.{op_return, op_pushdata1, op_pushdata2}

-- An instruction with fewer than 2 ^ 32 - 5 bytes of data is written in as many bytes as
-- `serialized_size` says, save that the data behind an OP_RETURN is not written.
pub length-write_one :
    (w : List ℕ) (i : Instruction)
    → length i.payload < 2 ^ 32 - 5
    → (length (write w i) ≤ length w + serialized_size i)
      × (i.op ≢ op_return → length (write w i) ≡ length w + serialized_size i)
unfolding write serialized_size
length-write_one w i h =
    let o = i.op in
    let d = i.payload in
    ground (
      arith,
      length-append w (o ∷ []),
      length-append (w ++ (o ∷ [])) d,
      length-append w (op_pushdata1 ∷ to_little 1 (length d)),
      length-append (w ++ (op_pushdata1 ∷ to_little 1 (length d))) d,
      length-append w (op_pushdata2 ∷ to_little 2 (length d)),
      length-append (w ++ (op_pushdata2 ∷ to_little 2 (length d))) d,
      length-append w (op_pushdata2 ∷ to_little 4 (length d)),
      length-append (w ++ (op_pushdata2 ∷ to_little 4 (length d))) d,
      length-to_little 1 (length d),
      length-to_little 2 (length d),
      length-to_little 4 (length d),
    )

length-over_zeros : (n : ℕ) (w : List ℕ) → length w ≤ n → length (over_zeros n w) ≡ n
unfolding over_zeros
length-over_zeros n w h = omega (
  arith,
  length-append w (drop (length w) (replicate n 0)),
  length-drop {A = ℕ} (length w) (replicate n 0),
  length-replicate {A = ℕ} n 0,
  h,
)

pub over_zeros_full : (n : ℕ) (w : List ℕ) → length w ≡ n → over_zeros n w ≡ w
unfolding over_zeros
over_zeros_full n w h =
    ap (λ t. w ++ t)
      (length-zero (drop (length w) (replicate n 0)) (
        omega
          (arith, length-drop {A = ℕ} (length w) (replicate n 0), length-replicate {A = ℕ} n 0, h)))
    ∙ append-nil w

-- `compile` of an instruction has the size that `serialized_size` says.
pub length-compile_instruction :
    (i : Instruction)
    → length i.payload < 2 ^ 32 - 5
    → length (compile_instruction i) ≡ serialized_size i
unfolding compile_instruction
length-compile_instruction i h =
    let (le, full) = length-write_one [] i h in
    length-over_zeros (serialized_size i) (write [] i) (omega (arith, le))

abbrev pub IsSized : Instruction → Type 0
IsSized i = length i.payload < 2 ^ 32 - 5

length-write_program :
    (w : List ℕ) (p : Program)
    → All IsSized p
    → length (write_program w p) ≤ length w + program_size p
unfolding write_program program_size
length-write_program w [] h = omega arith
length-write_program w (i ∷ p) (hi, h) =
    let (le, full) = length-write_one w i hi in
    omega (arith, le, length-write_program (write w i) p h)

-- A compiled program has the size that `serialized_size` says, where no instruction has 2 ^ 32 - 5
-- bytes of data or more.
pub length-compile : (p : Program) → All IsSized p → length (compile p) ≡ program_size p
unfolding compile
length-compile p h =
    length-over_zeros (program_size p) (write_program [] p)
      (omega (arith, length-write_program [] p h))
