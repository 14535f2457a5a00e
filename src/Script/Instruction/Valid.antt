-- ===== src/Script/Instruction/Valid.antt =====
-- src/gigamonkey/script/instruction.cpp: what `valid_program` tells of a program.
use gigamonkey.Base.{ℕ, ◌≡◌, [], ◌∷◌, true, false, none, some}
use gigamonkey.Base.{Bool-cases, sym, ap, ◌∙◌, inl, inr}
use gigamonkey.Script.Error.{ScriptError}
use gigamonkey.Script.Instruction.{Instruction, verify, verify_instruction, is_ok}
use gigamonkey.Script.Instruction.Program.{Program, Control, nest, valid_program}
use gigamonkey.Script.Opcode.{op_return}

abbrev pub IsReturn : Instruction → Type 0
IsReturn i = i.op ≡ op_return

abbrev pub IsValid : Instruction → Type 0
IsValid i = is_ok (verify_instruction i) ≡ true

-- Each op code of the program closes, opens or keeps the branches as `nest` says, from those that are
-- open before it, and none is open at the end.
abbrev pub IsBalanced : Control → Program → Type 0
IsBalanced x [] = x ≡ []
IsBalanced x (i ∷ p) = (x' : Control) × (nest i.op x ≡ some x') × IsBalanced x' p

-- What is left to check of an instruction that is no OP_RETURN.
rest_check : (i : Instruction) (p : Program) (x : Control) (flags : ℕ) → ScriptError
rest_check i p x flags = elim (nest i.op x) [
  | none ↦ ScriptError.unbalanced_conditional
  | some x' ↦ valid_program p x' flags
]

valid_program-refused :
    (i : Instruction) (p : Program) (x : Control) (flags : ℕ)
    → is_ok (verify i flags) ≡ false
    → valid_program (i ∷ p) x flags ≡ verify i flags
unfolding valid_program
valid_program-refused i p x flags e = rw e

verified :
    (i : Instruction) (p : Program) (x : Control) (flags : ℕ)
    → valid_program (i ∷ p) x flags ≡ ScriptError.ok
    → is_ok (verify i flags) ≡ true
verified i p x flags ok = elim (Bool-cases (is_ok (verify i flags))) [
  | inl e ↦ e
  | inr e ↦ ap is_ok (sym (valid_program-refused i p x flags e) ∙ ok)
]
