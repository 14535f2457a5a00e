-- ===== src/Script/Document.antt =====
-- include/gigamonkey/script/script.hpp and src/gigamonkey/script/script.cpp: the document that a
-- script redeems, with the structures of include/gigamonkey/incomplete.hpp; the signature of
-- include/gigamonkey/signature.hpp and the directive of include/gigamonkey/sighash.hpp; and
-- `verify_signature` of src/gigamonkey/script/machine.cpp.
use gigamonkey.Base.{
  ℕ, ◌+◌, ◌-◌, ◌^◌, Bool, true, false, List, [], ◌∷◌, none, some, ltb, ◌==◌, ◌!=◌,
}
use gigamonkey.Base.{if◌then◌else◌, not, ◌&&◌, ◌||◌, length, take, get_elem?, bit_and}
use gigamonkey.Base.Int.{ℤ, pos}
use gigamonkey.Script.Action.{Action, done, throws, ◌>>=◌, pure}
use gigamonkey.Script.Counter.{find_and_delete}
use gigamonkey.Script.Error.{ScriptError, EvalResult, fails, succeeds, other}
use gigamonkey.Script.Flags.{
  has, script_verify_compressed_pubkeytype, script_verify_strictenc, script_enable_sighash_forkid,
  script_verify_dersig, script_verify_low_s, script_verify_nullfail,
}
use gigamonkey.Script.Instruction.{push}
use gigamonkey.Script.Instruction.Program.{compile_instruction}
use gigamonkey.Sv.BigNum.{BigNum}
use gigamonkey.Sv.IntSerialization.{back}
use gigamonkey.Sv.ScriptNum.{ScriptNum, less_int, int_less, num_mask}

-- `outpoint`, `output`, `incomplete::input` and `incomplete::transaction`. The version is the uint32
-- of its bits.
pub record Outpoint : Type 0 where
  pub digest : List ℕ
  pub index : ℕ

pub record Input : Type 0 where
  pub reference : Outpoint
  pub sequence : ℕ

pub record Output : Type 0 where
  pub value : ℤ
  pub script : List ℕ

pub record Transaction : Type 0 where
  pub version : ℕ
  pub inputs : List Input
  pub outputs : List Output
  pub locktime : ℕ

-- `redemption_document`
pub record RedemptionDocument : Type 0 where
  pub redeemed_value : ℤ
  pub transaction : Transaction
  pub input_index : ℕ

-- `sighash::document`
pub record SighashDocument : Type 0 where
  pub redeemed : ℤ
  pub script_code : List ℕ
  pub signed_transaction : Transaction
  pub index_of_input : ℕ

-- `redemption_document::add_script_code`
unfoldable pub add_script_code : RedemptionDocument → List ℕ → SighashDocument
add_script_code d code = record {
  redeemed = d.redeemed_value;
  script_code = code;
  signed_transaction = d.transaction;
  index_of_input = d.input_index;
}

abbrev pub locktime_threshold : ℕ
locktime_threshold = 500000000

abbrev pub sequence_final : ℕ
sequence_final = 0xffff_ffff

abbrev pub sequence_locktime_disable_flag : ℕ
sequence_locktime_disable_flag = 2 ^ 31

abbrev pub sequence_locktime_type_flag : ℕ
sequence_locktime_type_flag = 2 ^ 22

abbrev pub sequence_locktime_mask : ℕ
sequence_locktime_mask = 0xffff

-- `Transaction.Inputs[InputIndex].Sequence`. What the list of the data library does out of range is
-- an exception here.
unfoldable pub sequence_of : {S : Type 0} → RedemptionDocument → Action S ℕ
sequence_of d s = elim (get_elem? d.transaction.inputs d.input_index) [
  | none ↦ throws other s
  | some i ↦ done i.sequence s
]

module _ (b : BigNum) where
  -- two kinds of lock, told apart by a threshold
  abbrev pub same_kind : ℕ → ℕ → ScriptNum b → Bool
  same_kind threshold n lock =
      (ltb n threshold && less_int b lock (pos threshold))
      || (not (ltb n threshold) && not (less_int b lock (pos threshold)))

  -- `check_locktime`
  unfoldable pub check_locktime : {S : Type 0} → RedemptionDocument → ScriptNum b → Action S Bool
  check_locktime d lock =
      if not (same_kind locktime_threshold d.transaction.locktime lock)
      then pure false
      else if int_less b (pos d.transaction.locktime) lock
      then pure false
      else (do sequence ← sequence_of d; pure (not (sequence_final == sequence)))

  abbrev pub locktime_mask : ℕ
  locktime_mask = sequence_locktime_type_flag + sequence_locktime_mask

  -- `check_sequence`, with the sequence of the input, which it reads first
  unfoldable pub sequence_passes : RedemptionDocument → ScriptNum b → ℕ → Bool
  sequence_passes d lock sequence =
      if ltb d.transaction.version 2
      then false
      else if bit_and sequence sequence_locktime_disable_flag != 0
      then false
      else if not (
          same_kind sequence_locktime_type_flag (bit_and sequence locktime_mask)
            (num_mask b lock locktime_mask))
      then false
      else if int_less b (pos (bit_and sequence locktime_mask)) (num_mask b lock locktime_mask)
      then false
      else true

  unfoldable pub check_sequence : {S : Type 0} → RedemptionDocument → ScriptNum b → Action S Bool
  check_sequence d lock = do sequence ← sequence_of d; pure (sequence_passes d lock sequence)

-- `signature::directive` and `signature::raw`
unfoldable pub directive : List ℕ → ℕ
directive [] = 0
directive (x ∷ xs) = back (x ∷ xs)

unfoldable pub raw : List ℕ → List ℕ
raw x = take (length x - 1) x

-- `sighash::has_fork_id` and `sighash::valid`
unfoldable pub has_fork_id : ℕ → Bool
has_fork_id d = bit_and d 0x40 != 0

unfoldable pub valid_directive : ℕ → Bool
valid_directive d = bit_and d 0x3c == 0

-- What secp256k1 answers on keys and signatures, and the hash of what is signed.
pub record Signatures : Type 0 where
  pub compressed : List ℕ → Bool
  pub valid_pubkey : List ℕ → Bool
  pub normalized : List ℕ → Bool
  pub minimal : List ℕ → Bool
  pub verifies : List ℕ → List ℕ → List ℕ → Bool
  pub signature_hash : SighashDocument → ℕ → List ℕ

-- `signature::DER`
unfoldable pub der : Signatures → List ℕ → Bool
der g [] = false
der g (x ∷ xs) = g.minimal (raw (x ∷ xs))

-- `verify_signature`
unfoldable pub verify_signature : Signatures → List ℕ → List ℕ → SighashDocument → ℕ → EvalResult
verify_signature g sig pubkey doc flags =
    if has flags script_verify_compressed_pubkeytype && not (g.compressed pubkey)
    then fails ScriptError.noncompressed_pubkey
    else if has flags script_verify_strictenc && not (g.valid_pubkey pubkey)
    then fails ScriptError.pubkey_type
    else if not (valid_directive (directive sig))
    then fails ScriptError.sig_hashtype
    else if has_fork_id (directive sig) && not (has flags script_enable_sighash_forkid)
    then fails ScriptError.illegal_forkid
    else if not (has_fork_id (directive sig)) && has flags script_enable_sighash_forkid
    then fails ScriptError.must_use_forkid
    else if (has flags script_verify_dersig
          || (has flags script_verify_low_s || has flags script_verify_strictenc))
        && not (der g sig)
    then fails ScriptError.sig_der
    else if has flags script_verify_low_s && not (g.normalized (raw sig))
    then fails ScriptError.sig_high_s
    else if g.verifies pubkey (g.signature_hash doc (directive sig)) (raw sig)
    then succeeds true
    else if has flags script_verify_nullfail && ltb 0 (length sig)
    then fails ScriptError.sig_null_fail
    else succeeds false

-- `cleanup_script_code`
unfoldable pub cleanup_script_code : List ℕ → List ℕ → List ℕ
cleanup_script_code code sig =
    if has_fork_id (directive sig)
    then code
    else find_and_delete code (compile_instruction (push sig))
