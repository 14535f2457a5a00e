-- ===== src/Sighash/Original.antt =====
-- Sighash.antt: the original algorithm signs a transaction that can be read back.
use gigamonkey.Base.{
  ℕ, suc, ◌+◌, ◌<◌, List, [], ◌∷◌, ◌++◌, none, some, Bool, true, false, ◌≡◌, refl, ap, ◌∙◌, arith,
}
use gigamonkey.Base.{ltb, length, get_elem?, ◌==◌}
use gigamonkey.Base.Bytes.{to_little}
use gigamonkey.P2p.VarInt.{Read, ◌>>=◌}
use gigamonkey.Script.Document
use gigamonkey.Script.Document.{Output, SighashDocument, has_fork_id}
use gigamonkey.Sighash
use gigamonkey.Timechain.Incomplete.{complete_input}
use gigamonkey.Timechain.Transaction.{read_transaction}
use gigamonkey.Timechain.Transaction.RoundTrip.{FitsTransaction, read_transaction-write_transaction}
use mathlib.Core.List.{map}
use gigamonkey.Sighash.Kept.{
  Kind, every_output, no_output, matching_output, directive_of, kept_outputs, sequence_kept, blank,
  kept_inputs, elem-middle, matching, anyone_of, or_true,
}

module _ (past_end : Read ℕ) where
  blank-sequence :
      (kind : Kind) (anyone : Bool) (doc : SighashDocument) (i : ℕ) (y : Document.Input)
      → (i == doc.index_of_input) ≡ false
      → Sighash.sequence_at past_end doc (directive_of kind anyone) i y
        ≡ sequence_kept kind y.sequence
  unfolding Sighash.sequence_at Sighash.base
  blank-sequence every_output true doc i y other = refl
  blank-sequence every_output false doc i y other = refl
  blank-sequence no_output true doc i y other = rw (other) refl
  blank-sequence no_output false doc i y other = rw (other) refl
  blank-sequence matching_output true doc i y other = rw (other) refl
  blank-sequence matching_output false doc i y other = rw (other) refl

  own-sequence :
      (d : ℕ) (doc : SighashDocument) (i : ℕ) (x : Document.Input)
      → (i == doc.index_of_input) ≡ true
      → Sighash.sequence_at past_end doc d i x ≡ x.sequence
  unfolding Sighash.sequence_at
  own-sequence d doc i x here = rw (here, or_true (Sighash.base d == Sighash.all)) refl

  signed_inputs-after :
      (kind : Kind) (anyone : Bool) (doc : SighashDocument) (i : ℕ) (ys : List Document.Input)
      → doc.index_of_input < i
      → Sighash.signed_inputs past_end doc (directive_of kind anyone) i ys
        ≡ some (map (blank kind) ys)
  unfolding Sighash.signed_inputs Sighash.script_at
  signed_inputs-after kind anyone doc i [] past = refl
  signed_inputs-after kind anyone doc i (y ∷ ys) past =
      let other : (i == doc.index_of_input) ≡ false = ground (arith, past) in
      rw
        (
          other,
          signed_inputs-after kind anyone doc (suc i) ys (omega (arith, past)),
          blank-sequence kind anyone doc i y other,
        )
        refl

  signed_inputs-kept :
      (kind : Kind) (anyone : Bool) (doc : SighashDocument) (i : ℕ) (before : List Document.Input)
      (x : Document.Input) (after : List Document.Input) (code : List ℕ)
      → i + length before ≡ doc.index_of_input
      → Sighash.remove_code_separators past_end doc.script_code ≡ some code
      → Sighash.signed_inputs past_end doc (directive_of kind anyone) i (before ++ (x ∷ after))
        ≡ some (kept_inputs kind false before x after code)
  unfolding Sighash.signed_inputs Sighash.script_at complete_input
  signed_inputs-kept kind anyone doc i [] x after code at decompiled =
      let here : (i == doc.index_of_input) ≡ true = ground (arith, at) in
      rw
        (
          here,
          decompiled,
          signed_inputs-after kind anyone doc (suc i) after (omega (arith, at)),
          own-sequence (directive_of kind anyone) doc i x here,
        )
        refl
  signed_inputs-kept kind anyone doc i (y ∷ before) x after code at decompiled =
      let other : (i == doc.index_of_input) ≡ false = ground (arith, at) in
      rw
        (
          other,
          signed_inputs-kept kind anyone doc (suc i) before x after code (omega (arith, at))
              decompiled,
          blank-sequence kind anyone doc i y other,
        )
        refl

  inputs_of-kept :
      (kind : Kind) (anyone : Bool) (doc : SighashDocument) (before : List Document.Input)
      (x : Document.Input) (after : List Document.Input) (code : List ℕ)
      → doc.signed_transaction.inputs ≡ before ++ (x ∷ after)
      → length before ≡ doc.index_of_input
      → Sighash.remove_code_separators past_end doc.script_code ≡ some code
      → Sighash.inputs_of past_end doc (directive_of kind anyone)
        ≡ some (kept_inputs kind anyone before x after code)
  unfolding Sighash.inputs_of
  inputs_of-kept kind true doc before x after code split at decompiled =
      let there : get_elem? doc.signed_transaction.inputs doc.index_of_input ≡ some x =
        rw (split, ← at) (elem-middle before x after) in
      rw (anyone_of kind true, there, decompiled) refl
  inputs_of-kept kind false doc before x after code split at decompiled =
      rw (anyone_of kind false) (
        ap (Sighash.signed_inputs past_end doc (directive_of kind false) 0) split
        ∙ signed_inputs-kept kind false doc 0 before x after code (omega (arith, at)) decompiled)

  signed_outputs-kept :
      (kind : Kind) (anyone : Bool) (doc : SighashDocument)
      → Sighash.signed_outputs doc (directive_of kind anyone)
        ≡ kept_outputs kind doc.signed_transaction.outputs doc.index_of_input
  unfolding Sighash.signed_outputs Sighash.base
  signed_outputs-kept every_output true doc = refl
  signed_outputs-kept every_output false doc = refl
  signed_outputs-kept no_output true doc = refl
  signed_outputs-kept no_output false doc = refl
  signed_outputs-kept matching_output true doc =
      matching doc.signed_transaction.outputs doc.index_of_input
  signed_outputs-kept matching_output false doc =
      matching doc.signed_transaction.outputs doc.index_of_input

  -- What the original algorithm signs is a transaction, which is read back from it, and the directive in
  -- four bytes. The transaction has the version, the locktime and, by the kind of the directive, all, none
  -- or the one of the outputs that has the index of the input; the input that is signed, with the
  -- script code without its code separators in the place of its script; and, unless anyone can pay, the
  -- other inputs before and after it, without scripts, whose sequences are 0 unless all outputs are
  -- signed. The input is at the index of the document, what is signed fits the fields that it is written in, and
  -- the script code can be decompiled.
  pub read_transaction-write_original :
      (kind : Kind) (anyone : Bool) (doc : SighashDocument) (before : List Document.Input)
      (x : Document.Input) (after : List Document.Input) (code : List ℕ) (outs : List Output)
      → doc.signed_transaction.inputs ≡ before ++ (x ∷ after)
      → length before ≡ doc.index_of_input
      → Sighash.remove_code_separators past_end doc.script_code ≡ some code
      → kept_outputs kind doc.signed_transaction.outputs doc.index_of_input ≡ some outs
      → FitsTransaction (record {
        version = doc.signed_transaction.version;
        inputs = kept_inputs kind anyone before x after code;
        outputs = outs;
        locktime = doc.signed_transaction.locktime;
      })
      → (Sighash.write_original past_end [] doc (directive_of kind anyone)
          >>= read_transaction past_end)
        ≡ some (
          record {
            version = doc.signed_transaction.version;
            inputs = kept_inputs kind anyone before x after code;
            outputs = outs;
            locktime = doc.signed_transaction.locktime;
          },
          to_little 4 (directive_of kind anyone),
        )
  unfolding Sighash.write_original Sighash.reconstruct
  read_transaction-write_original kind anyone doc before x after code outs split at decompiled kept
        fits =
      rw
        (
          inputs_of-kept kind anyone doc before x after code split at decompiled,
          signed_outputs-kept kind anyone doc,
          kept,
          read_transaction-write_transaction past_end _ (to_little 4 (directive_of kind anyone))
              fits,
        )
        refl

module _ (sha2_256 : List ℕ → List ℕ) (past_end : Read ℕ) where
  -- With the directive `single`, an input that has no output at its index is not signed: the list of
  -- outputs is read out of range.
  pub write_amaury_out_of_range :
      (w : List ℕ) (doc : SighashDocument) (d : ℕ)
      → has_fork_id d ≡ true
      → Sighash.base d ≡ Sighash.single
      → doc.index_of_input < length doc.signed_transaction.inputs
      → get_elem? doc.signed_transaction.outputs doc.index_of_input ≡ none
      → Sighash.write_amaury sha2_256 past_end w doc d ≡ none
  unfolding Sighash.write_amaury Sighash.outputs_digest
  write_amaury_out_of_range w doc d forked one there missing =
      let inside : ltb doc.index_of_input (length doc.signed_transaction.inputs) ≡ true =
        ground (arith, there) in
      rw (forked, one, inside, missing) refl
