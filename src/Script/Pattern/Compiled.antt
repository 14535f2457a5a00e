-- ===== src/Script/Pattern/Compiled.antt =====
-- Script/Pattern.antt: patterns that are made for a program, instruction by instruction, on the bytes that
-- `compile` writes.
use gigamonkey.Base.{ℕ, ◌≡◌, List, [], ◌∷◌, true}
use gigamonkey.Script.Instruction.{Instruction, data_of}
use gigamonkey.Script.Instruction.Program.{Program}
use gigamonkey.Script.Opcode.{is_push_op}
use gigamonkey.Script.Pattern.{Patterns, atom, push, push_read, nil, cons, Slots}

-- An instruction that a pattern asks for, or whose data it reads into a slot.
pub data Element : Type 0 where
  asked : Instruction → Element
  read_into : ℕ → Instruction → Element

abbrev pub instruction_of : Element → Instruction
instruction_of (asked i) = i
instruction_of (read_into k i) = i

abbrev pub program_of : List Element → Program
program_of [] = []
program_of (e ∷ es) = instruction_of e ∷ program_of es

abbrev pub patterns_of : List Element → Patterns
patterns_of [] = nil
patterns_of (asked i ∷ es) = cons (atom i) (patterns_of es)
patterns_of (read_into k i ∷ es) = cons (push (push_read k)) (patterns_of es)

-- what the slots hold after the elements, the latest first
abbrev pub slots_of : List Element → Slots → Slots
slots_of [] s = s
slots_of (asked i ∷ es) s = slots_of es s
slots_of (read_into k i ∷ es) s = slots_of es ((k, data_of i) ∷ s)

-- only the data of a push is read
abbrev pub IsPushed : Element → Type 0
IsPushed (asked i) = Unit {0}
IsPushed (read_into k i) = is_push_op i.op ≡ true
