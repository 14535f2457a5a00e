-- ===== src/Script/Machine/Crypto.antt =====
-- src/gigamonkey/script/machine.cpp: the cases of `machine::state::step` that hash and that check
-- signatures. The hash functions are those of sv/crypto, and parameters.
pub mod Framed
use gigamonkey.Base.{
  ℕ, zero, suc, ◌+◌, ◌-◌, Bool, true, false, List, [], ◌∷◌, Option, none, some, ltb, leb, ◌==◌,
  if◌then◌else◌, not, ◌&&◌, length, take, drop,
}
use mathlib.Core.List.{reverse}
use gigamonkey.Base.Int.{pos, pos_part, ltb_ℤ}
use gigamonkey.Script.Action.{Action, returns, ◌>>=◌, ◌>>◌, pure, skip, fail, fail_if}
use gigamonkey.Script.Counter.{script_code}
use gigamonkey.Script.Document.{
  RedemptionDocument, SighashDocument, Signatures, verify_signature, cleanup_script_code,
  add_script_code,
}
use gigamonkey.Script.Error.{ScriptError, EvalResult, succeeds}
use gigamonkey.Script.Flags.{
  has, script_verify_nullfail, script_verify_nulldummy, script_verify_minimaldata,
}
use gigamonkey.Script.Instruction.{is_ok}
use gigamonkey.Script.Machine.{need, script_bool}
use gigamonkey.Script.Machine.State.{State, StateOp, after_genesis, on_stacks}
use gigamonkey.Script.Stack.{Bytes, StackOp, size, stacktop, push_back, pop_back}
use gigamonkey.Sv.BigNum.{BigNum}
use gigamonkey.Sv.Config.{get_max_pubkeys_per_multisig, get_max_ops_per_script}
use gigamonkey.Sv.ScriptNum.{from_bytes, getint}

-- `CRIPEMD160`, `CSHA1` and `CSHA256`
pub record Hashes : Type 0 where
  pub ripemd160 : Bytes → Bytes
  pub sha1 : Bytes → Bytes
  pub sha256 : Bytes → Bytes

pub data HashOp : Type 0 where
  ripemd160_op sha1_op sha256_op hash160_op hash256_op : HashOp

unfoldable pub hash_of : Hashes → HashOp → Bytes → Bytes
hash_of h ripemd160_op v = h.ripemd160 v
hash_of h sha1_op v = h.sha1 v
hash_of h sha256_op v = h.sha256 v
hash_of h hash160_op v = h.ripemd160 (h.sha256 v)
hash_of h hash256_op v = h.sha256 (h.sha256 v)

-- OP_RIPEMD160 to OP_HASH256
unfoldable pub hash : Hashes → HashOp → StackOp (Unit {0})
hash h op = do need 1; vch ← stacktop 1; pop_back; push_back (hash_of h op vch)

-- `if (r.Error) return r.Error`
unfoldable pub success_of : {S : Type 0} → EvalResult → Action S Bool
success_of r = if is_ok r.error then pure r.success else fail r.error

-- the end of a checking op: its answer on the stack, which the op's VERIFY form takes off again,
-- and then ends the script where it is true
unfoldable pub answer : Bool → ScriptError → Bool → StackOp (Unit {0})
answer verify e b = do
  push_back (script_bool b)
  if verify then (if b then (do pop_back; λ s. returns (succeeds true) s) else fail e) else skip

module _ (g : Signatures) where
  -- without a document every signature is good
  unfoldable pub check : Option SighashDocument → ℕ → Bytes → Bytes → EvalResult
  check none flags sig pubkey = succeeds true
  check (some doc) flags sig pubkey = verify_signature g sig pubkey doc flags

  code_document : Option RedemptionDocument → List ℕ → Option SighashDocument
  code_document none code = none
  code_document (some d) code = some (add_script_code d code)

  -- OP_CHECKSIG, and OP_CHECKSIGVERIFY where `verify`
  unfoldable pub check_sig : Bool → StateOp (Unit {0})
  unfolding code_document
  check_sig verify x =
      on_stacks
        (do
          need 2
          sig ← stacktop 2
          pubkey ← stacktop 1
          ok ← success_of (
              check (code_document x.document (cleanup_script_code (script_code x.counter) sig))
                x.flags sig pubkey)
          pop_back
          pop_back
          answer verify ScriptError.check_sig_verify ok)
        x

  -- the loop over keys and signatures: `keys` and `sigs` are those left, of which there are no more
  -- than keys; `isig` and `ikey` are the distances of the next
  unfoldable pub check_keys : Option SighashDocument → ℕ → ℕ → ℕ → ℕ → ℕ → StackOp Bool
  check_keys doc flags keys zero isig ikey = pure true
  check_keys doc flags zero (suc sigs) isig ikey = pure false
  check_keys doc flags (suc keys) (suc sigs) isig ikey = do
    sig ← stacktop isig
    pubkey ← stacktop ikey
    ok ← success_of (check doc flags sig pubkey)
    if ok
        then check_keys doc flags keys sigs (isig + 1) (ikey + 1)
        else (if leb (suc sigs) keys
            then check_keys doc flags keys (suc sigs) isig (ikey + 1)
            else pure false)

  -- the loop that takes the arguments off, `count` of them
  unfoldable pub clean_up : Bool → ℕ → ℕ → ℕ → StackOp (Unit {0})
  clean_up success flags ikey2 zero = skip
  clean_up success flags ikey2 (suc count) = do
    top ←
        (if not success && (has flags script_verify_nullfail && ikey2 == 0)
          then stacktop 1
          else pure [])
    fail_if (ltb 0 (length top)) ScriptError.sig_null_fail
    pop_back
    clean_up success flags (ikey2 - 1) count

  module _ (b : BigNum) where
    -- a count at a distance, of up to four bytes
    count_at : ℕ → ScriptError → ℕ → StackOp ℕ
    count_at flags e i = do
      (λ s. fail_if (ltb (size s) i) ScriptError.invalid_stack_operation s)
      top ← stacktop i
      n ← from_bytes b top (has flags script_verify_minimaldata) 4 false
      fail_if (ltb_ℤ (getint b n) (pos 0)) e
      pure (pos_part (getint b n))

    -- The script code without the elements that are `count` from the second of the stack's bottom
    -- up, and with it what is signed.
    without_all : List ℕ → List Bytes → List ℕ
    without_all code [] = code
    without_all code (sig ∷ sigs) = without_all (cleanup_script_code code sig) sigs

    multi_document : State → ℕ → Option SighashDocument
    multi_document x count = elim x.document [
      | none ↦ none
      | some d ↦ some (
          add_script_code d
            (without_all (script_code x.counter) (take count (drop 1 (reverse x.stacks.main)))))
    ]

    count_ops : ℕ → StateOp (Unit {0})
    count_ops keys x =
        fail_if
          (ltb (get_max_ops_per_script x.config (after_genesis x) x.consensus) (x.op_count + keys))
          ScriptError.op_count (record x { op_count = x.op_count + keys })

    -- the signatures of `sigs` out of `keys` keys
    multi : Bool → ℕ → ℕ → StateOp (Unit {0})
    multi verify keys sigs x =
        let doc = multi_document x sigs in
        on_stacks
          (do
            need (keys + sigs + 3)
            ok ← check_keys doc x.flags keys sigs (keys + 3) 2
            clean_up ok x.flags (keys + 2) (keys + sigs + 2)
            need 1
            dummy ← stacktop 1
            fail_if (has x.flags script_verify_nulldummy && ltb 0 (length dummy))
                ScriptError.sig_null_dummy
            pop_back
            answer verify ScriptError.check_multisig_verify ok)
          x

    -- OP_CHECKMULTISIG, and OP_CHECKMULTISIGVERIFY where `verify`
    unfoldable pub check_multisig : Bool → StateOp (Unit {0})
    unfolding count_at multi multi_document without_all count_ops
    check_multisig verify x =
        (do
          keys ← on_stacks (count_at x.flags ScriptError.pubkey_count 1)
          fail_if (ltb (get_max_pubkeys_per_multisig x.config (after_genesis x) x.consensus) keys)
              ScriptError.pubkey_count
          count_ops keys
          sigs ← on_stacks (count_at x.flags ScriptError.sig_count (keys + 2))
          fail_if (ltb keys sigs) ScriptError.sig_count
          multi verify keys sigs)
          x
