-- ===== src/Sighash.antt =====
-- include/gigamonkey/sighash.hpp and src/gigamonkey/sighash.cpp: the bytes that a signature signs, by the
-- algorithm of the directive. What the list of the data library does out of range, and what decompiling
-- throws, is `none`. SHA-256 is a parameter. The documents are those of Script/Document.antt.
pub mod Unsigned
pub mod Kept
pub mod Original
pub mod Injective
use gigamonkey.Base.{ℕ, zero, suc, ◌+◌, List, [], ◌∷◌, ◌++◌, Option, none, some, Bool, true, false}
use gigamonkey.Base.{ltb, ◌==◌, ◌!=◌, not, ◌&&◌, ◌||◌, if◌then◌else◌, length, get_elem?, bit_and}
use gigamonkey.Base.Int.{ℤ, pos, ltb_ℤ}
use gigamonkey.Base.Bytes.{to_little}
use gigamonkey.Merkle.Proof.{Digest, no_digest, hash256}
use gigamonkey.P2p.VarInt.{Read, ◌>>=◌, write_string}
use gigamonkey.Script.Document
use gigamonkey.Script.Document.{Output, SighashDocument, has_fork_id}
use gigamonkey.Script.Instruction.Program.{Program, compile, decompile}
use gigamonkey.Script.Opcode.{op_codeseparator}
use gigamonkey.Timechain.Incomplete.{complete_input}
use gigamonkey.Timechain.Transaction.{
  Input, Transaction, word64, write_outpoint, write_output, write_transaction, output_bytes,
}

-- `base` and `is_anyone_can_pay`, and the directives
abbrev pub all : ℕ
all = 1

abbrev pub no_outputs : ℕ
no_outputs = 2

abbrev pub single : ℕ
single = 3

unfoldable pub base : ℕ → ℕ
base d = bit_and d 0x1f

unfoldable pub is_anyone_can_pay : ℕ → Bool
is_anyone_can_pay d = bit_and d 0x80 != 0

-- `document::valid`
unfoldable pub is_valid : SighashDocument → Bool
is_valid doc =
    not (ltb_ℤ doc.redeemed (pos 0))
    && ltb doc.index_of_input (length doc.signed_transaction.inputs)

-- the loop of `remove_code_separators`
unfoldable pub without_separators : Program → Program
without_separators [] = []
without_separators (i ∷ p) =
    let rest = without_separators p in if i.op != op_codeseparator then i ∷ rest else rest

-- the outputs of `reconstruct`
unfoldable pub signed_outputs : SighashDocument → ℕ → Option (List Output)
signed_outputs doc d =
    if base d == single
    then (do o ← get_elem? doc.signed_transaction.outputs doc.index_of_input; some (o ∷ []))
    else if base d == all
    then some doc.signed_transaction.outputs
    else some []

module _ (past_end : Read ℕ) where
  unfoldable pub remove_code_separators : List ℕ → Option (List ℕ)
  remove_code_separators script_code = do
    p ← decompile past_end script_code
    some (compile (without_separators p))

  -- the script and the sequence of the input with index `i`
  unfoldable pub script_at : SighashDocument → ℕ → Option (List ℕ)
  script_at doc i =
      if i == doc.index_of_input then remove_code_separators doc.script_code else some []

  unfoldable pub sequence_at : SighashDocument → ℕ → ℕ → Document.Input → ℕ
  sequence_at doc d i x = if base d == all || i == doc.index_of_input then x.sequence else 0

  -- the loop of `reconstruct` over the inputs, from index `i` on
  unfoldable pub signed_inputs : SighashDocument → ℕ → ℕ → List Document.Input → Option (List Input)
  signed_inputs doc d i [] = some []
  signed_inputs doc d i (x ∷ xs) = do
    code ← script_at doc i
    rest ← signed_inputs doc d (suc i) xs
    some
        (record { reference = x.reference; script = code; sequence = sequence_at doc d i x } ∷ rest)

  -- the inputs of `reconstruct`
  unfoldable pub inputs_of : SighashDocument → ℕ → Option (List Input)
  inputs_of doc d =
      if is_anyone_can_pay d
      then (do
        x ← get_elem? doc.signed_transaction.inputs doc.index_of_input
        code ← remove_code_separators doc.script_code
        some (complete_input x code ∷ []))
      else signed_inputs doc d 0 doc.signed_transaction.inputs

  unfoldable pub reconstruct : SighashDocument → ℕ → Option Transaction
  reconstruct doc d = do
    ins ← inputs_of doc d
    outs ← signed_outputs doc d
    some (record {
      version = doc.signed_transaction.version;
      inputs = ins;
      outputs = outs;
      locktime = doc.signed_transaction.locktime;
    })

  -- `write_original`
  unfoldable pub write_original : List ℕ → SighashDocument → ℕ → Option (List ℕ)
  write_original w doc d = do t ← reconstruct doc d; some (write_transaction w t ++ to_little 4 d)

-- the bytes that the hash writers of `Amaury` are given
unfoldable pub prevouts : List Document.Input → List ℕ
prevouts [] = []
prevouts (i ∷ is) = write_outpoint [] i.reference ++ prevouts is

unfoldable pub sequences : List Document.Input → List ℕ
sequences [] = []
sequences (i ∷ is) = to_little 4 i.sequence ++ sequences is

unfoldable pub all_outputs : List Output → List ℕ
all_outputs [] = []
all_outputs (o ∷ os) = write_output [] o ++ all_outputs os

module _ (sha2_256 : List ℕ → List ℕ) where
  unfoldable pub hash_prevouts : Document.Transaction → Digest
  hash_prevouts tx = hash256 sha2_256 (prevouts tx.inputs)

  unfoldable pub hash_sequence : Document.Transaction → Digest
  hash_sequence tx = hash256 sha2_256 (sequences tx.inputs)

  unfoldable pub hash_outputs : Document.Transaction → Digest
  hash_outputs tx = hash256 sha2_256 (all_outputs tx.outputs)

  -- the three digests of `Amaury::write`
  unfoldable pub prevouts_digest : SighashDocument → ℕ → Digest
  prevouts_digest doc d =
      if not (is_anyone_can_pay d) then hash_prevouts doc.signed_transaction else no_digest

  unfoldable pub sequence_digest : SighashDocument → ℕ → Digest
  sequence_digest doc d =
      if not (is_anyone_can_pay d) && (base d != single && base d != no_outputs)
      then hash_sequence doc.signed_transaction
      else no_digest

  unfoldable pub outputs_digest : SighashDocument → ℕ → Option Digest
  outputs_digest doc d =
      if base d != single && base d != no_outputs
      then some (hash_outputs doc.signed_transaction)
      else if base d == single && ltb doc.index_of_input (length doc.signed_transaction.inputs)
      then (do
        o ← get_elem? doc.signed_transaction.outputs doc.index_of_input
        some (hash256 sha2_256 (output_bytes o)))
      else some no_digest

  -- what `Amaury::write` puts out for an input and the digest of the outputs
  unfoldable pub preimage : SighashDocument → ℕ → Document.Input → Digest → List ℕ
  preimage doc d x outputs =
      to_little 4 doc.signed_transaction.version
      ++ (prevouts_digest doc d
          ++ (sequence_digest doc d
              ++ (write_outpoint [] x.reference
                  ++ (write_string [] doc.script_code
                      ++ (to_little 8 (word64 doc.redeemed)
                          ++ (to_little 4 x.sequence
                              ++ (outputs
                                  ++ (to_little 4 doc.signed_transaction.locktime
                                      ++ to_little 4 d))))))))

  module _ (past_end : Read ℕ) where
    -- `Amaury::write`. `d & ~fork_id` is `d` without its bit of 0x40.
    unfoldable pub write_amaury : List ℕ → SighashDocument → ℕ → Option (List ℕ)
    write_amaury w doc d =
        if not (has_fork_id d) then write_original past_end w doc (bit_and d 0xbf) else (do
          outputs ← outputs_digest doc d
          x ← get_elem? doc.signed_transaction.inputs doc.index_of_input
          some (w ++ preimage doc d x outputs))

    -- `write_Bitcoin_Cash`, which is `write`
    unfoldable pub write_bitcoin_cash : List ℕ → SighashDocument → ℕ → Option (List ℕ)
    write_bitcoin_cash w doc d =
        if has_fork_id d
        then write_amaury w doc d
        else write_original past_end w doc (bit_and d 0xbf)
