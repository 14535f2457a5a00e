-- ===== src/Script/Machine.antt =====
-- src/gigamonkey/script/machine.cpp and src/sv/script/interpreter.cpp: the operations of the machine
-- on its stacks, a function for each case of the switches of `machine::state::step` and `EvalScript`.
pub mod StackOps
pub mod Bitwise
pub mod Numeric
pub mod Spans
pub mod Shifts
pub mod State
pub mod Control
pub mod Crypto
pub mod Step
pub mod Truth
pub mod Evaluate
use gigamonkey.Base.{ℕ, Bool, true, false, List, [], ◌∷◌, ◌==◌, ◌!=◌, ltb, if◌then◌else◌}
use gigamonkey.Script.Action.{Action, fail_if}
use gigamonkey.Script.Error.{ScriptError}
use gigamonkey.Script.Stack.{Bytes, Stacks, StackOp, size}

-- What `step` reads from the flags and the limits before it runs an operation.
pub record Rules : Type 0 where
  pub utxo_after_genesis : Bool
  pub require_minimal : Bool
  pub max_script_num_length : ℕ

-- `if (Stack.size () < n) return SCRIPT_ERR_INVALID_STACK_OPERATION`
abbrev pub need : ℕ → StackOp (Unit {0})
need n s = fail_if (ltb (size s) n) ScriptError.invalid_stack_operation s

-- `MAX_SCRIPT_ELEMENT_SIZE_BEFORE_GENESIS`
abbrev pub max_script_element_size_before_genesis : ℕ
max_script_element_size_before_genesis = 520

-- `script_false`, `script_true` and `script_bool`
abbrev pub script_bool : Bool → Bytes
script_bool true = 1 ∷ []
script_bool false = []

-- `CastToBool`
is_last : Bytes → Bool
is_last [] = true
is_last (x ∷ xs) = false

unfoldable pub cast_to_bool : Bytes → Bool
unfolding is_last
cast_to_bool [] = false
cast_to_bool (x ∷ xs) =
    if x != 0
    then (if is_last xs then (if x == 0x80 then false else true) else true)
    else cast_to_bool xs
