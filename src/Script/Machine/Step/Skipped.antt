-- ===== src/Script/Machine/Step/Skipped.antt =====
-- src/gigamonkey/script/machine.cpp: a step in a branch that is not taken does not move the counter.
use gigamonkey.Base.{ℕ, zero, suc, ◌≤◌, ◌≡◌, refl, List, ◌∷◌, true, false, arith, none, ◌∙◌, ap}
use gigamonkey.Script.Action.{done, returns, ◌>>=◌}
use gigamonkey.Script.Document.{Signatures}
use gigamonkey.Script.Error.{ScriptError, fails}
use gigamonkey.Script.Machine.Crypto.{Hashes}
use gigamonkey.Script.Machine.State.{State, all_true, after_genesis}
use gigamonkey.Script.Machine.Step.{step, step_at, guards, count_op, run, result_of}
use gigamonkey.Script.Opcode.{op_16}
use gigamonkey.Sv.BigNum.{BigNum}

module _ (b : BigNum) (h : Hashes) (g : Signatures) where
  count_op-small : (x : State) (op : ℕ) → op ≤ op_16 → count_op b h g op x ≡ done tt x
  unfolding count_op
  count_op-small x op small = ground (arith, small)

  guards-skipped :
      (x : State) (op : ℕ)
      → op ≤ op_16
      → after_genesis x ≡ true
      → all_true x.exec ≡ false
      → guards b h g op x ≡ returns (fails ScriptError.ok) x
  unfolding guards
  guards-skipped x op small after skipped = rw (count_op-small x op small, after, skipped, ◌>>=◌)

  step_at-skipped :
      (x : State) (op : ℕ) (rest : List ℕ)
      → op ≤ op_16
      → after_genesis x ≡ true
      → all_true x.exec ≡ false
      → step_at b h g (op ∷ rest) x ≡ returns (fails ScriptError.ok) x
  unfolding step_at
  step_at-skipped x op rest small after skipped =
      rw (guards-skipped x op small after skipped, ◌>>=◌)

  step-skipped :
      (x : State) (op : ℕ) (rest : List ℕ)
      → x.counter.next ≡ op ∷ rest
      → op ≤ op_16
      → after_genesis x ≡ true
      → all_true x.exec ≡ false
      → step b h g x ≡ returns (fails ScriptError.ok) x
  unfolding step
  step-skipped x op rest e small after skipped =
      ap (λ t. step_at b h g t x) e ∙ step_at-skipped x op rest small after skipped

  run-suc :
      (fuel : ℕ) (x : State)
      → step b h g x ≡ returns (fails ScriptError.ok) x
      → run b h g (suc fuel) x ≡ run b h g fuel x
  unfolding run result_of
  run-suc fuel x e = rw e

  -- After genesis, where a branch is not taken and a push comes next, a step changes nothing and is
  -- no end: `run` goes on for ever, with any number of steps.
  pub run-skipped :
      (fuel : ℕ) (x : State) (op : ℕ) (rest : List ℕ)
      → x.counter.next ≡ op ∷ rest
      → op ≤ op_16
      → after_genesis x ≡ true
      → all_true x.exec ≡ false
      → run b h g fuel x ≡ none
  unfolding run
  run-skipped zero x op rest e small after skipped = refl
  run-skipped (suc fuel) x op rest e small after skipped =
      run-suc fuel x (step-skipped x op rest e small after skipped)
      ∙ run-skipped fuel x op rest e small after skipped
