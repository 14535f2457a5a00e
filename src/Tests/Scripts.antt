-- ===== src/Tests/Scripts.antt =====
-- The theorems on scripts at concrete inputs.
use gigamonkey.Base.{replicate}
use gigamonkey.Base.{ℕ, ◌≡◌, ◌≢◌, ◌↔◌, refl, List, [], ◌∷◌, true, length, arith, none, some, All}
use gigamonkey.Base.Int.{pos}
use gigamonkey.Script.Counter.{find_and_delete}
use gigamonkey.Script.Counter.Compiled.{written, instructions-compile}
use gigamonkey.Script.Counter.Walk.{instructions, joined, without, find_and_delete-without}
use gigamonkey.Script.Instruction.{op_code, with_data, verify_instruction}
use gigamonkey.Script.Instruction.Encodings.{IsWritable, IsNested}
use gigamonkey.Script.Instruction.Program.{Program, compile, decompile, nest}
use gigamonkey.Script.Instruction.RoundTrip.{decompile-compile}
use gigamonkey.Script.Machine.{cast_to_bool}
use gigamonkey.Script.Machine.Truth.{cast_to_bool-value}
use gigamonkey.Script.Opcode.{op_if, op_endif, op_return}
use gigamonkey.Sv.IntSerialization.Value.{value}

-- two bytes, and the program that pushes them and branches on them
abbrev two_bytes : List ℕ
two_bytes = 7 ∷ 9 ∷ []

abbrev branching : Program
branching = with_data 2 two_bytes ∷ op_code op_if ∷ op_code op_return ∷ op_code op_endif ∷ []

cast_to_bool-value_example : (cast_to_bool (0 ∷ 128 ∷ []) ≡ true) ↔ (value (0 ∷ 128 ∷ []) ≢ pos 0)
cast_to_bool-value_example = cast_to_bool-value (0 ∷ 128 ∷ []) (omega arith)

branching-IsWritable : All IsWritable branching
unfolding verify_instruction
branching-IsWritable = ground arith

branching-IsNested : IsNested [] branching
unfolding nest
branching-IsNested = (
  refl,
  ([], refl, (refl, (op_if ∷ [], refl, (refl, (op_if ∷ [], refl, (refl, ([], refl, tt))))))),
)

decompile-compile_example : decompile none (compile branching) ≡ some branching
decompile-compile_example = decompile-compile none branching branching-IsWritable branching-IsNested

instructions-compile_example :
    instructions (length (compile branching)) (compile branching) ≡ written branching
instructions-compile_example = instructions-compile branching branching-IsWritable

find_and_delete-without_example :
    find_and_delete (1 ∷ 171 ∷ 171 ∷ []) (171 ∷ [])
    ≡ joined (
        without
          (171 ∷ [])
          (instructions (length {A = ℕ} (1 ∷ 171 ∷ 171 ∷ [])) (1 ∷ 171 ∷ 171 ∷ [])))
find_and_delete-without_example = find_and_delete-without (1 ∷ 171 ∷ 171 ∷ []) (171 ∷ [])

abbrev zeros : List ℕ
zeros = replicate 65536 0
