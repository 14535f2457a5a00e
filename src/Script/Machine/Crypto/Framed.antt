-- ===== src/Script/Machine/Crypto/Framed.antt =====
-- src/gigamonkey/script/machine.cpp: OP_CHECKSIG and OP_CHECKMULTISIG change the stacks and the count
-- of operations at most.
use gigamonkey.Base.{ℕ, Bool, ◌+◌}
use gigamonkey.Script.Document.{Signatures}
use gigamonkey.Script.Machine.Crypto.{check_sig, count_ops, multi, check_multisig}
use gigamonkey.Script.Machine.Control.Framed.{fail_if-KeepsFrame}
use gigamonkey.Script.Machine.State.Frame.{KeepsFrame, on_stacks-KeepsFrame, bind-KeepsFrame}
use gigamonkey.Sv.BigNum.{BigNum}

module _ (g : Signatures) where
  pub check_sig-KeepsFrame : (verify : Bool) → KeepsFrame (check_sig g verify)
  unfolding check_sig
  check_sig-KeepsFrame verify f x i = on_stacks-KeepsFrame _ f x i

  module _ (b : BigNum) where
    count_ops-KeepsFrame : (keys : ℕ) → KeepsFrame (count_ops g b keys)
    unfolding count_ops
    count_ops-KeepsFrame keys f x i =
        fail_if-KeepsFrame _ _ f (record x { op_count = x.op_count + keys }) i

    multi-KeepsFrame : (verify : Bool) (keys sigs : ℕ) → KeepsFrame (multi g b verify keys sigs)
    unfolding multi
    multi-KeepsFrame verify keys sigs f x i = on_stacks-KeepsFrame _ f x i

    pub check_multisig-KeepsFrame : (verify : Bool) → KeepsFrame (check_multisig g b verify)
    unfolding check_multisig
    check_multisig-KeepsFrame verify f x =
        bind-KeepsFrame _ _ (on_stacks-KeepsFrame _)
          (λ keys. bind-KeepsFrame _ _ (fail_if-KeepsFrame _ _) (λ u.
            bind-KeepsFrame _ _ (count_ops-KeepsFrame keys) (λ u.
              bind-KeepsFrame _ _ (on_stacks-KeepsFrame _) (λ sigs.
                bind-KeepsFrame _ _ (fail_if-KeepsFrame _ _)
                  (λ u. multi-KeepsFrame verify keys sigs)))))
          f x
