-- ===== src/Script/Machine/Control/Framed.antt =====
-- src/sv/script/interpreter.cpp and src/gigamonkey/script/machine.cpp: the control operations and the
-- lock times change the branches at most.
use gigamonkey.Base.{Bool, true, false, List, [], ◌∷◌, not, ◌&&◌, if◌then◌else◌, get_elem?, ◌==◌}
use gigamonkey.Script.Action.{
  done, returns, Keeps-fail_if, on_done, on_return, on_throw, ◌>>=◌, ◌>>◌, pure, skip, fail,
  fail_if, raise,
}
use gigamonkey.Script.Document.{
  RedemptionDocument, sequence_locktime_disable_flag, same_kind, locktime_threshold, sequence_final,
  sequence_of, check_locktime, check_sequence, sequence_passes,
}
use gigamonkey.Script.Error.{ScriptError, succeeds, other}
use gigamonkey.Script.Machine.Control.{
  condition, open_branch, if_op, switch_branch, else_op, close_branch, endif_op, is_empty_exec,
  return_op, upgradable_nop, lock_number, passes, check_locktime_op, check_sequence_op,
}
use gigamonkey.Script.Machine.State.{StateOp, after_genesis, on_stacks, all_true}
use gigamonkey.Script.Machine.State.Frame.{
  KeepsFrame, HasFrame, on_stacks-KeepsFrame, bind-KeepsFrame, choice-KeepsFrame, option-KeepsFrame,
  if-KeepsFrame,
}
use gigamonkey.Base.Int.{pos}
use gigamonkey.Sv.BigNum.{BigNum}
use gigamonkey.Sv.ScriptNum.{ScriptNum, small, int_less, num_equal, num_mask}

pub fail_if-KeepsFrame : (c : Bool) (e : ScriptError) → KeepsFrame (fail_if c e)
fail_if-KeepsFrame c e f = Keeps-fail_if (HasFrame f) c e

open_branch-KeepsFrame : (c : Bool) → KeepsFrame (open_branch c)
unfolding open_branch
open_branch-KeepsFrame c f x i = on_done tt i

pub if_op-KeepsFrame : (is_not : Bool) → KeepsFrame (if_op is_not)
unfolding if_op
if_op-KeepsFrame is_not f x i =
    if-KeepsFrame (all_true x.exec) (on_stacks (condition is_not x.flags) >>= open_branch)
      (open_branch false) f x
      (bind-KeepsFrame (on_stacks (condition is_not x.flags)) open_branch
        (on_stacks-KeepsFrame (condition is_not x.flags)) open_branch-KeepsFrame)
      (open_branch-KeepsFrame false) i

switch_branch-KeepsFrame : (exec elses : List Bool) → KeepsFrame (switch_branch exec elses)
unfolding switch_branch
switch_branch-KeepsFrame [] elses f x i = on_return i
switch_branch-KeepsFrame (c ∷ exec) [] f x i = on_done tt i
switch_branch-KeepsFrame (c ∷ exec) (e ∷ elses) f x i =
    if-KeepsFrame (e && after_genesis x) (fail ScriptError.unbalanced_conditional)
      (λ x. done tt (record x { exec = not c ∷ exec; else_ = true ∷ elses })) f x
      (λ f x i. on_return i) (λ f x i. on_done tt i) i

pub else_op-KeepsFrame : KeepsFrame else_op
unfolding else_op
else_op-KeepsFrame f x i = switch_branch-KeepsFrame x.exec x.else_ f x i

close_branch-KeepsFrame : (exec : List Bool) → KeepsFrame (close_branch exec)
unfolding close_branch
close_branch-KeepsFrame [] f x i = on_return i
close_branch-KeepsFrame (c ∷ exec) f x i = on_done tt i

pub endif_op-KeepsFrame : KeepsFrame endif_op
unfolding endif_op
endif_op-KeepsFrame f x i = close_branch-KeepsFrame x.exec f x i

pub return_op-KeepsFrame : KeepsFrame return_op
unfolding return_op
return_op-KeepsFrame f x i =
    if-KeepsFrame (after_genesis x)
      (λ x. if is_empty_exec x.exec then returns (succeeds true) x else done tt x)
      (fail ScriptError.op_return) f x
      (λ f x i.
        if-KeepsFrame (is_empty_exec x.exec) (λ x. returns (succeeds true) x) (λ x. done tt x) f x
          (λ f x i. on_return i) (λ f x i. on_done tt i) i)
      (λ f x i. on_return i) i

pub upgradable_nop-KeepsFrame : KeepsFrame upgradable_nop
unfolding upgradable_nop
upgradable_nop-KeepsFrame f x i = fail_if-KeepsFrame _ _ f x i

sequence_of-KeepsFrame : (d : RedemptionDocument) → KeepsFrame (sequence_of d)
unfolding sequence_of
sequence_of-KeepsFrame d f x i =
    option-KeepsFrame (get_elem? d.transaction.inputs d.input_index) (raise other)
      (λ s. pure s.sequence) f x (λ f x i. on_throw i) (λ s f x i. on_done tt i) i

module _ (b : BigNum) where
  check_locktime-KeepsFrame :
      (d : RedemptionDocument) (n : ScriptNum b) → KeepsFrame (check_locktime b d n)
  unfolding check_locktime
  check_locktime-KeepsFrame d n =
      choice-KeepsFrame (not (same_kind b locktime_threshold d.transaction.locktime n)) (pure false)
        (if int_less b (pos d.transaction.locktime) n
          then pure false
          else (sequence_of d >>= λ s. pure (not (sequence_final == s))))
        (λ f x i. on_done tt i)
        (choice-KeepsFrame (int_less b (pos d.transaction.locktime) n) (pure false)
          (sequence_of d >>= λ s. pure (not (sequence_final == s))) (λ f x i. on_done tt i)
          (bind-KeepsFrame (sequence_of d) (λ s. pure (not (sequence_final == s)))
            (sequence_of-KeepsFrame d) (λ s f x i. on_done tt i)))

  check_sequence-KeepsFrame :
      (d : RedemptionDocument) (n : ScriptNum b) → KeepsFrame (check_sequence b d n)
  unfolding check_sequence
  check_sequence-KeepsFrame d n =
      bind-KeepsFrame (sequence_of d) (λ s. pure (sequence_passes b d n s))
        (sequence_of-KeepsFrame d) (λ s f x i. on_done tt i)

  passes-KeepsFrame :
      (check : RedemptionDocument → StateOp Bool)
      → ((d : RedemptionDocument) → KeepsFrame (check d))
      → KeepsFrame (passes b check)
  unfolding passes
  passes-KeepsFrame check h f x i =
      option-KeepsFrame x.document skip
        (λ d. check d >>= λ ok. fail_if (not ok) ScriptError.unsatisfied_locktime) f x
        (λ f x i. on_done tt i)
        (λ d.
          bind-KeepsFrame (check d) _ (h d)
            (λ ok. fail_if-KeepsFrame (not ok) ScriptError.unsatisfied_locktime))
        i

  pub check_locktime_op-KeepsFrame : KeepsFrame (check_locktime_op b)
  unfolding check_locktime_op
  check_locktime_op-KeepsFrame f x i =
      if-KeepsFrame _ upgradable_nop
        (on_stacks (lock_number b x.flags) >>= λ n. passes b (λ d. check_locktime b d n)) f x
        upgradable_nop-KeepsFrame
        (bind-KeepsFrame (on_stacks (lock_number b x.flags)) _
          (on_stacks-KeepsFrame (lock_number b x.flags))
          (λ n. passes-KeepsFrame (λ d. check_locktime b d n) (λ d. check_locktime-KeepsFrame d n)))
        i

  pub check_sequence_op-KeepsFrame : KeepsFrame (check_sequence_op b)
  unfolding check_sequence_op
  check_sequence_op-KeepsFrame f x i =
      if-KeepsFrame _ upgradable_nop
        (on_stacks (lock_number b x.flags) >>= λ n.
          fail_if (is_disabled n) ScriptError.ok >> passes b (λ d. check_sequence b d n))
        f x upgradable_nop-KeepsFrame
        (bind-KeepsFrame (on_stacks (lock_number b x.flags)) _
          (on_stacks-KeepsFrame (lock_number b x.flags))
          (λ n. bind-KeepsFrame _ _ (fail_if-KeepsFrame (is_disabled n) ScriptError.ok) (λ u.
            passes-KeepsFrame (λ d. check_sequence b d n) (λ d. check_sequence-KeepsFrame d n))))
        i
    where
      is_disabled : ScriptNum b → Bool
      is_disabled n =
          not (num_equal b (num_mask b n sequence_locktime_disable_flag) (small (pos 0)))
