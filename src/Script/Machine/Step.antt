-- ===== src/Script/Machine/Step.antt =====
-- include/gigamonkey/script/machine.hpp and src/gigamonkey/script/machine.cpp: one step of the
-- machine, with the switch over op codes as a table, and `step` and `run` around it.
pub mod Skipped
pub mod Framed
pub mod Advance
pub mod Ends
use gigamonkey.Base.{
  ℕ, zero, suc, ◌+◌, ◌-◌, Bool, true, false, List, [], ◌∷◌, Option, none, some, ltb, leb, ◌==◌,
  ◌!=◌, if◌then◌else◌, not, ◌&&◌, ◌||◌, length, drop,
}
use gigamonkey.Script.Action.{
  Action, Outcome, done, returns, throws, ◌>>=◌, ◌>>◌, pure, skip, fail, fail_if, raise, final,
}
use gigamonkey.Script.Counter.{ProgramCounter, advance}
use gigamonkey.Script.Document.{RedemptionDocument, Signatures}
use gigamonkey.Script.Error.{ScriptError, EvalResult, fails, succeeds, Exception, other}
use gigamonkey.Script.Flags.{has, script_verify_cleanstack}
use gigamonkey.Script.Instruction.{is_ok}
use gigamonkey.Script.Machine.{Rules, max_script_element_size_before_genesis}
use gigamonkey.Script.Machine.Bitwise.{and_op, or_op, xor_op, invert, equal_op}
use gigamonkey.Script.Machine.Control.{
  if_op, else_op, endif_op, return_op, upgradable_nop, check_locktime_op, check_sequence_op,
}
use gigamonkey.Script.Machine.Crypto.{
  Hashes, HashOp, ripemd160_op, sha1_op, sha256_op, hash160_op, hash256_op, hash, check_sig,
  check_multisig,
}
use gigamonkey.Script.Machine.Numeric.{
  UnaryOp, one_add, one_sub, negate_op, abs_op, not_op, zero_not_equal, BinaryOp, add_op, sub_op,
  mul_op, div_op, mod_op, bool_and, bool_or, num_equal_op, num_equal_verify, num_not_equal,
  less_than, greater_than, less_than_or_equal, greater_than_or_equal, min_op, max_op, push_number,
  unary, binary, within, verify_op,
}
use gigamonkey.Script.Machine.Shifts.{shift, lshift, rshift}
use gigamonkey.Script.Machine.Spans.{cat, split, num2bin, bin2num}
use gigamonkey.Script.Machine.StackOps.{Arrangement, arrange, depth, size_op}
use gigamonkey.Script.Machine.State.{State, StateOp, after_genesis, rules_of, on_stacks, all_true}
use gigamonkey.Script.Opcode
use gigamonkey.Script.Opcode.{
  is_push_data, op_pushsize75, op_pushdata1, op_pushdata2, op_1, op_16, op_1negate,
}
use gigamonkey.Script.Stack.{Bytes, Stacks, StackOp, size, push_back}
use gigamonkey.Sv.BigNum.{BigNum}
use gigamonkey.Sv.Config.{get_max_ops_per_script, get_max_script_size}

-- `MAX_STACK_ELEMENTS_BEFORE_GENESIS`
abbrev pub max_stack_elements_before_genesis : ℕ
max_stack_elements_before_genesis = 1000

-- `IsValidMaxOpsPerScript` and `IsOpcodeDisabled`
unfoldable pub is_valid_max_ops_per_script : ℕ → State → Bool
is_valid_max_ops_per_script n x =
    leb n (get_max_ops_per_script x.config (after_genesis x) x.consensus)

unfoldable pub is_opcode_disabled : ℕ → Bool
is_opcode_disabled op = op == Opcode.op_2mul || op == Opcode.op_2div

-- `get_push_data`
unfoldable pub get_push_data : Bytes → Bytes
get_push_data [] = []
get_push_data (op ∷ rest) =
    if not (is_push_data op)
    then []
    else if leb op op_pushsize75
    then rest
    else if op == op_pushdata1
    then drop 1 rest
    else if op == op_pushdata2
    then drop 2 rest
    else drop 4 rest

lookup : {A : Type 0} → ℕ → List (ℕ × A) → Option A
lookup op [] = none
lookup op ((o, a) ∷ l) = if op == o then some a else lookup op l

-- the op codes of the groups
arrangements : List (ℕ × Arrangement)
arrangements =
    (Opcode.op_toaltstack, Arrangement.op_toaltstack)
    ∷ (Opcode.op_fromaltstack, Arrangement.op_fromaltstack)
    ∷ (Opcode.op_2drop, Arrangement.op_2drop)
    ∷ (Opcode.op_2dup, Arrangement.op_2dup)
    ∷ (Opcode.op_3dup, Arrangement.op_3dup)
    ∷ (Opcode.op_2over, Arrangement.op_2over)
    ∷ (Opcode.op_2rot, Arrangement.op_2rot)
    ∷ (Opcode.op_2swap, Arrangement.op_2swap)
    ∷ (Opcode.op_ifdup, Arrangement.op_ifdup)
    ∷ (Opcode.op_drop, Arrangement.op_drop)
    ∷ (Opcode.op_dup, Arrangement.op_dup)
    ∷ (Opcode.op_nip, Arrangement.op_nip)
    ∷ (Opcode.op_over, Arrangement.op_over)
    ∷ (Opcode.op_pick, Arrangement.op_pick)
    ∷ (Opcode.op_roll, Arrangement.op_roll)
    ∷ (Opcode.op_rot, Arrangement.op_rot)
    ∷ (Opcode.op_swap, Arrangement.op_swap)
    ∷ (Opcode.op_tuck, Arrangement.op_tuck)
    ∷ []

unaries : List (ℕ × UnaryOp)
unaries =
    (Opcode.op_1add, one_add)
    ∷ (Opcode.op_1sub, one_sub)
    ∷ (Opcode.op_negate, negate_op)
    ∷ (Opcode.op_abs, abs_op)
    ∷ (Opcode.op_not, not_op)
    ∷ (Opcode.op_0notequal, zero_not_equal)
    ∷ []

binaries : List (ℕ × BinaryOp)
binaries =
    (Opcode.op_add, add_op)
    ∷ (Opcode.op_sub, sub_op)
    ∷ (Opcode.op_mul, mul_op)
    ∷ (Opcode.op_div, div_op)
    ∷ (Opcode.op_mod, mod_op)
    ∷ (Opcode.op_booland, bool_and)
    ∷ (Opcode.op_boolor, bool_or)
    ∷ (Opcode.op_numequal, num_equal_op)
    ∷ (Opcode.op_numequalverify, num_equal_verify)
    ∷ (Opcode.op_numnotequal, num_not_equal)
    ∷ (Opcode.op_lessthan, less_than)
    ∷ (Opcode.op_greaterthan, greater_than)
    ∷ (Opcode.op_lessthanorequal, less_than_or_equal)
    ∷ (Opcode.op_greaterthanorequal, greater_than_or_equal)
    ∷ (Opcode.op_min, min_op)
    ∷ (Opcode.op_max, max_op)
    ∷ []

hashes : List (ℕ × HashOp)
hashes =
    (Opcode.op_ripemd160, ripemd160_op)
    ∷ (Opcode.op_sha1, sha1_op)
    ∷ (Opcode.op_sha256, sha256_op)
    ∷ (Opcode.op_hash160, hash160_op)
    ∷ (Opcode.op_hash256, hash256_op)
    ∷ []

module _ (b : BigNum) (h : Hashes) (g : Signatures) where
  -- the op codes with a case of their own
  others : Rules → List (ℕ × StateOp (Unit {0}))
  others rules =
      (Opcode.op_nop, skip)
      ∷ (Opcode.op_checklocktimeverify, check_locktime_op b)
      ∷ (Opcode.op_checksequenceverify, check_sequence_op b)
      ∷ (Opcode.op_nop1, upgradable_nop)
      ∷ (Opcode.op_nop4, upgradable_nop)
      ∷ (Opcode.op_nop5, upgradable_nop)
      ∷ (Opcode.op_nop6, upgradable_nop)
      ∷ (Opcode.op_nop7, upgradable_nop)
      ∷ (Opcode.op_nop8, upgradable_nop)
      ∷ (Opcode.op_nop9, upgradable_nop)
      ∷ (Opcode.op_nop10, upgradable_nop)
      ∷ (Opcode.op_verify, on_stacks verify_op)
      ∷ (Opcode.op_return, return_op)
      ∷ (Opcode.op_depth, on_stacks (depth b))
      ∷ (Opcode.op_size, on_stacks (size_op b))
      ∷ (Opcode.op_and, on_stacks and_op)
      ∷ (Opcode.op_or, on_stacks or_op)
      ∷ (Opcode.op_xor, on_stacks xor_op)
      ∷ (Opcode.op_invert, on_stacks invert)
      ∷ (Opcode.op_equal, on_stacks (equal_op false))
      ∷ (Opcode.op_equalverify, on_stacks (equal_op true))
      ∷ (Opcode.op_within, on_stacks (within b rules))
      ∷ (Opcode.op_codeseparator, skip)
      ∷ (Opcode.op_checksig, check_sig g false)
      ∷ (Opcode.op_checksigverify, check_sig g true)
      ∷ (Opcode.op_checkmultisig, check_multisig g b false)
      ∷ (Opcode.op_checkmultisigverify, check_multisig g b true)
      ∷ []

  -- `EvalScript`, on a script of one op code that does not push data
  evaluated : Rules → List (ℕ × StateOp (Unit {0}))
  evaluated rules =
      (Opcode.op_if, if_op false)
      ∷ (Opcode.op_notif, if_op true)
      ∷ (Opcode.op_else, else_op)
      ∷ (Opcode.op_endif, endif_op)
      ∷ (Opcode.op_cat, on_stacks (cat rules))
      ∷ (Opcode.op_split, on_stacks (split b rules))
      ∷ (Opcode.op_num2bin, on_stacks (num2bin b rules))
      ∷ (Opcode.op_bin2num, on_stacks (bin2num rules))
      ∷ (Opcode.op_lshift, on_stacks (shift b lshift rules))
      ∷ (Opcode.op_rshift, on_stacks (shift b rshift rules))
      ∷ []

  unfoldable pub eval_script : ℕ → StateOp (Unit {0})
  unfolding lookup evaluated
  eval_script op x =
      if ltb (get_max_script_size x.config (after_genesis x) x.consensus) 1
      then fail ScriptError.script_size x
      else elim (lookup op (evaluated (rules_of x))) [
        | some m ↦ m x
        | none ↦ fail ScriptError.bad_opcode x
      ]

  -- the switch, for an op code that does not push data
  unfoldable pub operation : ℕ → StateOp (Unit {0})
  unfolding lookup arrangements unaries binaries hashes others
  operation op x =
      let rules = rules_of x in
      if op == op_1negate || leb op_1 op && leb op op_16
      then on_stacks (push_number b op) x
      else elim (lookup op arrangements) [
        | some a ↦ on_stacks (arrange b rules a) x
        | none ↦ elim (lookup op unaries) [
          | some u ↦ on_stacks (unary b u rules) x
          | none ↦ elim (lookup op binaries) [
            | some n ↦ on_stacks (binary b n rules) x
            | none ↦ elim (lookup op hashes) [
              | some o ↦ on_stacks (hash h o) x
              | none ↦ elim (lookup op (others rules)) [ some m ↦ m x | none ↦ eval_script op x ]
            ]
          ]
        ]
      ]

  -- `++OpCount`, where the op code counts
  unfoldable pub count_op : ℕ → StateOp (Unit {0})
  count_op op x =
      if ltb op_16 op
      then fail_if (not (is_valid_max_ops_per_script (x.op_count + 1) x)) ScriptError.op_count
          (record x { op_count = x.op_count + 1 })
      else done tt x

  -- what `step` does with the op code at the front
  unfoldable pub execute : ℕ → StateOp (Unit {0})
  execute op x =
      if leb op Opcode.op_pushdata4
      then on_stacks (push_back (get_push_data x.counter.next)) x
      else operation op x

  -- the end of a step
  unfoldable pub finish : StateOp (Unit {0})
  finish x =
      if not (after_genesis x)
        && ltb max_stack_elements_before_genesis (size x.stacks + length x.stacks.alt)
      then fail ScriptError.stack_size x
      else done tt (record x { counter = advance x.counter })

  -- The guards of a step. A branch that is not taken ends it, with no error, where it is.
  unfoldable pub guards : ℕ → StateOp (Unit {0})
  guards op = do
    count_op op
    (λ x.
        fail_if
          (not (after_genesis x)
            && ltb max_script_element_size_before_genesis (length x.counter.next - 1))
          ScriptError.push_size x)
    (λ x. fail_if (not (all_true x.exec)) ScriptError.ok x)
    fail_if (is_opcode_disabled op) ScriptError.disabled_opcode

  -- `machine::state::step`
  step_at : Bytes → StateOp (Unit {0})
  step_at [] x =
      if has x.flags script_verify_cleanstack && size x.stacks != 1
      then fail ScriptError.clean_stack x
      else returns (succeeds true) x
  step_at (op ∷ rest) x = (do guards op; execute op; finish) x

  unfoldable pub step : StateOp (Unit {0})
  unfolding step_at
  step x = step_at x.counter.next x

  -- `catch_all_errors`, on what a step ends in
  unfoldable pub caught : Exception → ScriptError
  caught Exception.scriptnum_overflow_error = ScriptError.scriptnum_overflow
  caught Exception.scriptnum_minencode_error = ScriptError.scriptnum_minencode
  caught Exception.stack_overflow_error = ScriptError.stack_size
  caught Exception.big_int_error = ScriptError.big_int
  caught Exception.out_of_range = ScriptError.invalid_stack_operation
  caught Exception.other = ScriptError.unknown_error

  -- the `result` of a step
  unfoldable pub result_of : Outcome State (Unit {0}) → EvalResult
  unfolding caught
  result_of (done a x) = fails ScriptError.ok
  result_of (returns r x) = r
  result_of (throws e x) = fails (caught e)

  -- `state_run` within `catch_all_errors`: it steps until there is an error or success. The fuel is
  -- how many steps are tried.
  unfoldable pub run : ℕ → State → Option (EvalResult × State)
  run zero x = none
  run (suc fuel) x =
      let o = step x in
      let rest = run fuel (final o) in
      if not (is_ok (result_of o).error) || (result_of o).success
      then some (result_of o, final o)
      else rest
