-- ===== src/Script/Machine/Control.antt =====
-- src/sv/script/interpreter.cpp: the cases of `EvalScript` for OP_IF, OP_NOTIF, OP_ELSE and OP_ENDIF,
-- and src/gigamonkey/script/machine.cpp: OP_RETURN, the NOPs and the lock times.
pub mod Framed
use gigamonkey.Base.{
  ℕ, Bool, true, false, List, [], ◌∷◌, none, some, ltb, ◌!=◌, if◌then◌else◌, not, ◌&&◌, ◌||◌,
}
use gigamonkey.Base.Int.{pos}
use gigamonkey.Script.Action.{done, returns, ◌>>=◌, ◌>>◌, pure, fail, fail_if}
use gigamonkey.Script.Document.{
  RedemptionDocument, check_locktime, check_sequence, sequence_locktime_disable_flag,
}
use gigamonkey.Script.Error.{ScriptError, succeeds}
use gigamonkey.Script.Flags.{
  has, script_verify_minimalif, script_verify_minimaldata, script_verify_checklocktimeverify,
  script_verify_checksequenceverify, script_verify_discourage_upgradable_nops,
}
use gigamonkey.Script.Machine.{need, cast_to_bool}
use gigamonkey.Script.Machine.State.{StateOp, after_genesis, on_stacks, all_true}
use gigamonkey.Script.Stack.{Bytes, StackOp, size, stacktop, pop_back}
use gigamonkey.Sv.BigNum.{BigNum}
use gigamonkey.Sv.ScriptNum.{ScriptNum, small, from_bytes, num_equal, less_int, num_mask}

-- `vch.size () == 1 && vch[0] != 1`, or more than one byte
unfoldable pub is_not_minimal_if : Bytes → Bool
is_not_minimal_if [] = false
is_not_minimal_if (x ∷ []) = x != 1
is_not_minimal_if (x ∷ y ∷ v) = true

flip_if : Bool → Bool → Bool
flip_if is_not b = if is_not then not b else b

-- the condition that OP_IF, or OP_NOTIF where `is_not`, takes from the stack
unfoldable pub condition : Bool → ℕ → StackOp Bool
unfolding flip_if
condition is_not flags = do
  (λ s. fail_if (ltb (size s) 1) ScriptError.unbalanced_conditional s)
  vch ← stacktop 1
  fail_if (has flags script_verify_minimalif && is_not_minimal_if vch) ScriptError.minimal_if
  pop_back
  pure (flip_if is_not (cast_to_bool vch))

unfoldable pub open_branch : Bool → StateOp (Unit {0})
open_branch b x = done tt (record x { exec = b ∷ x.exec; else_ = false ∷ x.else_ })

-- OP_IF and OP_NOTIF
unfoldable pub if_op : Bool → StateOp (Unit {0})
if_op is_not x =
    if all_true x.exec
    then (on_stacks (condition is_not x.flags) >>= open_branch) x
    else open_branch false x

-- OP_ELSE
switch_branch : List Bool → List Bool → StateOp (Unit {0})
switch_branch [] elses = fail ScriptError.unbalanced_conditional
switch_branch (b ∷ exec) [] = λ x. done tt (record x { exec = not b ∷ exec })
switch_branch (b ∷ exec) (e ∷ elses) = λ x.
    if e && after_genesis x
    then fail ScriptError.unbalanced_conditional x
    else done tt (record x { exec = not b ∷ exec; else_ = true ∷ elses })

unfoldable pub else_op : StateOp (Unit {0})
unfolding switch_branch
else_op x = switch_branch x.exec x.else_ x

-- OP_ENDIF
tail_of : List Bool → List Bool
tail_of [] = []
tail_of (b ∷ bs) = bs

close_branch : List Bool → StateOp (Unit {0})
close_branch [] = fail ScriptError.unbalanced_conditional
close_branch (b ∷ exec) = λ x. done tt (record x { exec = exec; else_ = tail_of x.else_ })

unfoldable pub endif_op : StateOp (Unit {0})
unfolding close_branch tail_of
endif_op x = close_branch x.exec x

-- OP_RETURN
is_empty_exec : List Bool → Bool
is_empty_exec [] = true
is_empty_exec (b ∷ bs) = false

unfoldable pub return_op : StateOp (Unit {0})
unfolding is_empty_exec
return_op x =
    if after_genesis x
    then (if is_empty_exec x.exec then returns (succeeds true) x else done tt x)
    else fail ScriptError.op_return x

-- OP_NOP1 and the other NOPs that may be given a meaning
unfoldable pub upgradable_nop : StateOp (Unit {0})
upgradable_nop x =
    fail_if (has x.flags script_verify_discourage_upgradable_nops)
      ScriptError.discourage_upgradable_nops x

module _ (b : BigNum) where
  -- The number at the top, of up to five bytes, which must not be negative.
  lock_number : ℕ → StackOp (ScriptNum b)
  lock_number flags = do
    need 1
    top ← stacktop 1
    n ← from_bytes b top (has flags script_verify_minimaldata) 5 false
    fail_if (less_int b n (pos 0)) ScriptError.negative_locktime
    pure n

  passes : (RedemptionDocument → StateOp Bool) → StateOp (Unit {0})
  passes check x = elim x.document [
    | none ↦ done tt x
    | some d ↦ (check d >>= λ ok. fail_if (not ok) ScriptError.unsatisfied_locktime) x
  ]

  -- OP_CHECKLOCKTIMEVERIFY
  unfoldable pub check_locktime_op : StateOp (Unit {0})
  unfolding lock_number passes
  check_locktime_op x =
      if not (has x.flags script_verify_checklocktimeverify) || after_genesis x
      then upgradable_nop x
      else (do n ← on_stacks (lock_number x.flags); passes (λ d. check_locktime b d n)) x

  -- OP_CHECKSEQUENCEVERIFY. A number with the disable flag ends the step, with no error.
  unfoldable pub check_sequence_op : StateOp (Unit {0})
  unfolding lock_number passes
  check_sequence_op x =
      if not (has x.flags script_verify_checksequenceverify) || after_genesis x
      then upgradable_nop x
      else (do
        n ← on_stacks (lock_number x.flags)
        fail_if (not (num_equal b (num_mask b n sequence_locktime_disable_flag) (small (pos 0))))
            ScriptError.ok
        passes (λ d. check_sequence b d n))
          x
