-- ===== src/Script/Machine/Step/Framed.antt =====
-- src/gigamonkey/script/machine.cpp: every case of the switch of a step keeps the frame.
use gigamonkey.Base.{
  ℕ, true, false, List, [], ◌∷◌, none, some, ◌≡◌, ltb, leb, ◌==◌, ◌&&◌, ◌||◌, ◌+◌, ◌-◌, length, not,
  if◌then◌else◌, All,
}
use gigamonkey.Script.Action.{Ensures, Any, on_done, on_return, skip, fail, fail_if, ◌>>◌}
use gigamonkey.Script.Document.{Signatures}
use gigamonkey.Script.Error.{ScriptError}
use gigamonkey.Script.Machine.{Rules, max_script_element_size_before_genesis}
use gigamonkey.Script.Machine.Control.Framed.{
  fail_if-KeepsFrame, if_op-KeepsFrame, else_op-KeepsFrame, endif_op-KeepsFrame,
  return_op-KeepsFrame, upgradable_nop-KeepsFrame, check_locktime_op-KeepsFrame,
  check_sequence_op-KeepsFrame,
}
use gigamonkey.Script.Machine.Crypto.{Hashes}
use gigamonkey.Script.Machine.Crypto.Framed.{check_sig-KeepsFrame, check_multisig-KeepsFrame}
use gigamonkey.Script.Machine.State.{State, StateOp, on_stacks, rules_of, after_genesis, all_true}
use gigamonkey.Script.Machine.State.Frame.{
  KeepsFrame, Frame, HasFrame, frame, on_stacks-KeepsFrame, bind-KeepsFrame, option-KeepsFrame,
  if-KeepsFrame,
}
use gigamonkey.Script.Machine.Step.{
  lookup, arrangements, unaries, binaries, hashes, get_push_data, is_valid_max_ops_per_script,
  is_opcode_disabled, others, evaluated, eval_script, operation, count_op, execute, guards,
}
use gigamonkey.Script.Machine.Crypto.{hash}
use gigamonkey.Script.Machine.Numeric.{push_number, unary, binary}
use gigamonkey.Script.Machine.StackOps.{arrange}
use gigamonkey.Script.Opcode
use gigamonkey.Script.Opcode.{op_1, op_16, op_1negate}
use gigamonkey.Script.Stack.{push_back}
use gigamonkey.Sv.BigNum.{BigNum}

-- What holds of every entry holds of the one that is found.
lookup-option :
    {A : Type 0} (op : ℕ) (l : List (ℕ × StateOp A)) (k : StateOp A)
    → All (λ e. KeepsFrame e.1) l
    → KeepsFrame k
    → (f : Frame) (x : State) → frame x ≡ f
    → Ensures (HasFrame f) Any (elim (lookup op l) [ some m ↦ m x | none ↦ k x ])
unfolding lookup
lookup-option op [] k h g f x i = g f x i
lookup-option op ((o, m) ∷ l) k h g f x i =
    elim (op == o)
      as (λ c.
        Ensures (HasFrame f) Any
          (elim (if c then some m else lookup op l) [ some m ↦ m x | none ↦ k x ])) [
            | true ↦ h.0 f x i
            | false ↦ lookup-option op l k h.1 g f x i
          ]

abbrev element_guard : StateOp (Unit {0})
element_guard x =
    fail_if
      (not (after_genesis x)
        && ltb max_script_element_size_before_genesis (length x.counter.next - 1))
      ScriptError.push_size x

abbrev exec_guard : StateOp (Unit {0})
exec_guard x = fail_if (not (all_true x.exec)) ScriptError.ok x

skip-KeepsFrame : KeepsFrame skip
skip-KeepsFrame f x i = on_done tt i

fail-KeepsFrame : (e : ScriptError) → KeepsFrame {A = Unit {0}} (fail e)
fail-KeepsFrame e f x i = on_return i

module _ (b : BigNum) (h : Hashes) (g : Signatures) where
  others-KeepsFrame : (rules : Rules) → All (λ e. KeepsFrame e.1) (others b h g rules)
  unfolding others
  others-KeepsFrame rules = (
    skip-KeepsFrame,
    (
      check_locktime_op-KeepsFrame b,
      (
        check_sequence_op-KeepsFrame b,
        (
          upgradable_nop-KeepsFrame,
          (
            upgradable_nop-KeepsFrame,
            (
              upgradable_nop-KeepsFrame,
              (
                upgradable_nop-KeepsFrame,
                (
                  upgradable_nop-KeepsFrame,
                  (
                    upgradable_nop-KeepsFrame,
                    (
                      upgradable_nop-KeepsFrame,
                      (
                        upgradable_nop-KeepsFrame,
                        (
                          on_stacks-KeepsFrame _,
                          (
                            return_op-KeepsFrame,
                            (
                              on_stacks-KeepsFrame _,
                              (
                                on_stacks-KeepsFrame _,
                                (
                                  on_stacks-KeepsFrame _,
                                  (
                                    on_stacks-KeepsFrame _,
                                    (
                                      on_stacks-KeepsFrame _,
                                      (
                                        on_stacks-KeepsFrame _,
                                        (
                                          on_stacks-KeepsFrame _,
                                          (
                                            on_stacks-KeepsFrame _,
                                            (
                                              on_stacks-KeepsFrame _,
                                              (
                                                skip-KeepsFrame,
                                                (
                                                  check_sig-KeepsFrame g false,
                                                  (
                                                    check_sig-KeepsFrame g true,
                                                    (
                                                      check_multisig-KeepsFrame g b false,
                                                      (check_multisig-KeepsFrame g b true, tt),
                                                    ),
                                                  ),
                                                ),
                                              ),
                                            ),
                                          ),
                                        ),
                                      ),
                                    ),
                                  ),
                                ),
                              ),
                            ),
                          ),
                        ),
                      ),
                    ),
                  ),
                ),
              ),
            ),
          ),
        ),
      ),
    ),
  )

  evaluated-KeepsFrame : (rules : Rules) → All (λ e. KeepsFrame e.1) (evaluated b h g rules)
  unfolding evaluated
  evaluated-KeepsFrame rules = (
    if_op-KeepsFrame false,
    (
      if_op-KeepsFrame true,
      (
        else_op-KeepsFrame,
        (
          endif_op-KeepsFrame,
          (
            on_stacks-KeepsFrame _,
            (
              on_stacks-KeepsFrame _,
              (
                on_stacks-KeepsFrame _,
                (on_stacks-KeepsFrame _, (on_stacks-KeepsFrame _, (on_stacks-KeepsFrame _, tt))),
              ),
            ),
          ),
        ),
      ),
    ),
  )

  eval_script-KeepsFrame : (op : ℕ) → KeepsFrame (eval_script b h g op)
  unfolding eval_script
  eval_script-KeepsFrame op f x i =
      if-KeepsFrame _ (fail ScriptError.script_size)
        (λ y. elim (lookup op (evaluated b h g (rules_of x))) [
          | some m ↦ m y
          | none ↦ fail ScriptError.bad_opcode y
        ])
        f x (fail-KeepsFrame ScriptError.script_size)
        (lookup-option op (evaluated b h g (rules_of x)) (fail ScriptError.bad_opcode)
          (evaluated-KeepsFrame (rules_of x)) (fail-KeepsFrame ScriptError.bad_opcode))
        i

  operation-KeepsFrame : (op : ℕ) → KeepsFrame (operation b h g op)
  unfolding operation
  operation-KeepsFrame op f x i =
      let rules = rules_of x in
      let other : StateOp (Unit {0}) = λ y. elim (lookup op (others b h g rules)) [
        | some m ↦ m y
        | none ↦ eval_script b h g op y
      ] in
      let hashed : StateOp (Unit {0}) =
        λ y. elim (lookup op hashes) [ some o ↦ on_stacks (hash h o) y | none ↦ other y ] in
      let two : StateOp (Unit {0}) = λ y. elim (lookup op binaries) [
        | some n ↦ on_stacks (binary b n rules) y
        | none ↦ hashed y
      ] in
      let one : StateOp (Unit {0}) =
        λ y. elim (lookup op unaries) [ some u ↦ on_stacks (unary b u rules) y | none ↦ two y ] in
      let arranged : StateOp (Unit {0}) = λ y. elim (lookup op arrangements) [
        | some a ↦ on_stacks (arrange b rules a) y
        | none ↦ one y
      ] in
      if-KeepsFrame (op == op_1negate || leb op_1 op && leb op op_16) (on_stacks (push_number b op))
        arranged f x (on_stacks-KeepsFrame (push_number b op))
        (λ f y.
          option-KeepsFrame (lookup op arrangements) one (λ a. on_stacks (arrange b rules a)) f y
            (λ f y.
              option-KeepsFrame (lookup op unaries) two (λ u. on_stacks (unary b u rules)) f y
                (λ f y.
                  option-KeepsFrame (lookup op binaries) hashed (λ n. on_stacks (binary b n rules))
                    f y
                    (λ f y.
                      option-KeepsFrame (lookup op hashes) other (λ o. on_stacks (hash h o)) f y
                        (lookup-option op (others b h g rules) (eval_script b h g op)
                          (others-KeepsFrame rules) (eval_script-KeepsFrame op))
                        (λ o. on_stacks-KeepsFrame (hash h o)))
                    (λ n. on_stacks-KeepsFrame (binary b n rules)))
                (λ u. on_stacks-KeepsFrame (unary b u rules)))
            (λ a. on_stacks-KeepsFrame (arrange b rules a)))
        i

  pub execute-KeepsFrame : (op : ℕ) → KeepsFrame (execute b h g op)
  unfolding execute
  execute-KeepsFrame op f x i =
      if-KeepsFrame (leb op Opcode.op_pushdata4)
        (on_stacks (push_back (get_push_data x.counter.next))) (operation b h g op) f x
        (on_stacks-KeepsFrame (push_back (get_push_data x.counter.next))) (operation-KeepsFrame op)
        i

  count_op-KeepsFrame : (op : ℕ) → KeepsFrame (count_op b h g op)
  unfolding count_op
  count_op-KeepsFrame op f x i =
      if-KeepsFrame (ltb op_16 op)
        (λ y.
          fail_if (not (is_valid_max_ops_per_script (x.op_count + 1) x)) ScriptError.op_count
            (record y { op_count = x.op_count + 1 }))
        skip f x
        (λ f y i.
          fail_if-KeepsFrame _ ScriptError.op_count f (record y { op_count = x.op_count + 1 }) i)
        skip-KeepsFrame i

  pub guards-KeepsFrame : (op : ℕ) → KeepsFrame (guards b h g op)
  unfolding guards
  guards-KeepsFrame op =
      bind-KeepsFrame (count_op b h g op)
        (λ u.
          element_guard
          >> (exec_guard >> fail_if (is_opcode_disabled op) ScriptError.disabled_opcode))
        (count_op-KeepsFrame op)
        (λ u.
          bind-KeepsFrame element_guard
            (λ u. exec_guard >> fail_if (is_opcode_disabled op) ScriptError.disabled_opcode)
            (λ f x i. fail_if-KeepsFrame _ ScriptError.push_size f x i)
            (λ u.
              bind-KeepsFrame exec_guard
                (λ u. fail_if (is_opcode_disabled op) ScriptError.disabled_opcode)
                (λ f x i. fail_if-KeepsFrame _ ScriptError.ok f x i)
                (λ u. fail_if-KeepsFrame (is_opcode_disabled op) ScriptError.disabled_opcode)))
