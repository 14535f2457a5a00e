-- ===== src/Script/Machine/Evaluate.antt =====
-- include/gigamonkey/script/machine.hpp and src/gigamonkey/script/machine.cpp: the machine for an
-- unlocking and a locking script, and its two ways to run.
use gigamonkey.Base.{
  ℕ, Bool, true, false, List, [], ◌∷◌, ◌++◌, Option, none, some, ◌==◌, if◌then◌else◌, not, ◌&&◌,
  ◌||◌, length, get_elem?,
}
use mathlib.Core.List.{reverse}
use gigamonkey.P2p.VarInt.{Read, ◌>>=◌}
use gigamonkey.Script.Action.{final}
use gigamonkey.Script.Document.{RedemptionDocument, Signatures}
use gigamonkey.Script.Error.{ScriptError, EvalResult, fails, succeeds}
use gigamonkey.Script.Flags.{has, script_verify_sigpushonly}
use gigamonkey.Script.Instruction.{op_code, data_of, is_ok}
use gigamonkey.Script.Instruction.Program.{
  Program, is_empty, compile, decompile, is_push_program, verify_program,
}
use gigamonkey.Script.Machine.Crypto.{Hashes}
use gigamonkey.Script.Machine.State.{State, initial}
use gigamonkey.Script.Machine.Step.{step, run, result_of}
use gigamonkey.Script.Opcode.{op_codeseparator, op_hash160, op_equal}
use gigamonkey.Sv.BigNum.{BigNum}

abbrev pub byte_is : List ℕ → ℕ → ℕ → Bool
byte_is script i x = elim (get_elem? script i) [ none ↦ false | some y ↦ y == x ]

-- `isP2SH`
unfoldable pub is_p2sh : Program → Bool
is_p2sh p =
    let script = compile p in
    length script == 23
    && (byte_is script 0 op_hash160 && (byte_is script 1 0x14 && byte_is script 22 op_equal))

-- the data of the last instruction
last_data : Program → List ℕ
last_data [] = []
last_data (i ∷ p) = data_of i

module _ (past_end : Read ℕ) where
  -- `full`
  unfoldable pub full : Program → Program → Option Program
  unfolding last_data
  full unlock lock =
      if not (is_p2sh lock) || is_empty unlock
      then some ((unlock ++ (op_code op_codeseparator ∷ [])) ++ lock)
      else (do
        redeem ← decompile past_end (last_data (reverse unlock))
        some (
            (unlock ++ (op_code op_codeseparator ∷ []))
            ++ ((lock ++ (op_code op_codeseparator ∷ [])) ++ redeem)))

  -- `check_scripts`
  unfoldable pub check_scripts : Program → Program → ℕ → Option ScriptError
  check_scripts unlock lock flags =
      if has flags script_verify_sigpushonly && not (is_push_program unlock)
      then some ScriptError.sig_push_only
      else if is_p2sh lock && is_empty unlock
      then some ScriptError.invalid_stack_operation
      else if is_p2sh lock && not (is_push_program unlock)
      then some ScriptError.sig_push_only
      else (do p ← full unlock lock; some (verify_program p flags))

  -- `machine`
  pub record Machine : Type 0 where
    pub halt : Bool
    pub result : EvalResult
    pub state : State

  -- the constructors from programs, and from scripts
  unfoldable pub make : Option RedemptionDocument → Program → Program → ℕ → Option Machine
  make doc unlock lock flags = do
    p ← full unlock lock
    e ← check_scripts unlock lock flags
    some record {
      halt = not (is_ok e);
      result = if is_ok e then succeeds false else fails e;
      state = initial flags false doc (compile p);
    }

  unfoldable pub machine : Option RedemptionDocument → List ℕ → List ℕ → ℕ → Option Machine
  machine doc unlock lock flags = do
    u ← decompile past_end unlock
    l ← decompile past_end lock
    make doc u l flags

  module _ (b : BigNum) (h : Hashes) (g : Signatures) where
    -- `machine::step`
    unfoldable pub machine_step : Machine → Machine
    machine_step m =
        if m.halt
        then m
        else (let o = step b h g m.state in
            if not (is_ok (result_of b h g o).error) || (result_of b h g o).success
            then record { halt = true; result = result_of b h g o; state = final o }
            else record m { state = final o })

    -- `machine::run`, which does not ask whether the machine has halted. The fuel is that of `run`.
    unfoldable pub machine_run : ℕ → Machine → Option Machine
    machine_run fuel m = do
      (r, x) ← run b h g fuel m.state
      some record { halt = true; result = r; state = x }

  -- `evaluate`
  unfoldable pub evaluate :
      BigNum
      → Hashes
      → Signatures
      → ℕ
      → Option RedemptionDocument
      → List ℕ
      → List ℕ
      → ℕ
      → Option EvalResult
  evaluate b h g fuel doc unlock lock flags = do
    m ← machine doc unlock lock flags
    m' ← machine_run b h g fuel m
    some m'.result
