-- ===== src/Sighash/Unsigned.antt =====
-- Sighash.antt: what a directive leaves unsigned.
use gigamonkey.Base.{ℕ, suc, ◌<◌, List, [], ◌∷◌, true, false, ◌≡◌, refl, ap, ◌∙◌}
use gigamonkey.Base.{◌==◌, ◌!=◌, get_elem?, bit_and}
use gigamonkey.P2p.VarInt.{Read}
use gigamonkey.Script.Document
use gigamonkey.Script.Document.{Output, SighashDocument, has_fork_id}
use gigamonkey.Sighash
use gigamonkey.Base.Bits.{and_0xbf_0x1f, and_0xbf_0x80}

-- the document with other outputs
unfoldable pub with_outputs : SighashDocument → List Output → SighashDocument
with_outputs doc os = record doc {
  signed_transaction = record doc.signed_transaction { outputs = os };
}

module _ (past_end : Read ℕ) (doc : SighashDocument) (os : List Output) (d : ℕ) where
  inputs-with_outputs :
      (i : ℕ) (xs : List Document.Input)
      → Sighash.signed_inputs past_end (with_outputs doc os) d i xs
        ≡ Sighash.signed_inputs past_end doc d i xs
  unfolding with_outputs Sighash.signed_inputs Sighash.script_at Sighash.sequence_at
  inputs-with_outputs i [] = refl
  inputs-with_outputs i (x ∷ xs) = rw (inputs-with_outputs (suc i) xs) refl

  original-with_outputs :
      (w : List ℕ)
      → Sighash.base d ≡ Sighash.no_outputs
      → Sighash.write_original past_end w (with_outputs doc os) d
        ≡ Sighash.write_original past_end w doc d
  unfolding Sighash.write_original Sighash.reconstruct Sighash.inputs_of Sighash.signed_outputs
      with_outputs
  original-with_outputs w free = rw (inputs-with_outputs 0 doc.signed_transaction.inputs, free) refl

base-without_fork_id : (d : ℕ) → d < 256 → Sighash.base (bit_and d 0xbf) ≡ Sighash.base d
unfolding Sighash.base
base-without_fork_id d byte = and_0xbf_0x1f d byte

any-without_fork_id :
    (d : ℕ) → d < 256 → Sighash.is_anyone_can_pay (bit_and d 0xbf) ≡ Sighash.is_anyone_can_pay d
unfolding Sighash.is_anyone_can_pay
any-without_fork_id d byte = ap (λ n. n != 0) (and_0xbf_0x80 d byte)

module _ (sha2_256 : List ℕ → List ℕ) (past_end : Read ℕ) where
  amaury-with_outputs :
      (w : List ℕ) (doc : SighashDocument) (os : List Output) (d : ℕ)
      → d < 256
      → Sighash.base d ≡ Sighash.no_outputs
      → Sighash.write_amaury sha2_256 past_end w (with_outputs doc os) d
        ≡ Sighash.write_amaury sha2_256 past_end w doc d
  unfolding Sighash.write_amaury Sighash.outputs_digest Sighash.preimage Sighash.sequence_digest
      Sighash.prevouts_digest Sighash.hash_prevouts Sighash.hash_sequence with_outputs
  amaury-with_outputs w doc os d byte free =
      rw
        (
          original-with_outputs past_end doc os (bit_and d 0xbf) w
              (base-without_fork_id d byte ∙ free),
          free,
        )
        refl

  -- With the directive `none`, by either algorithm, the outputs may change and what is signed stays.
  pub write_bitcoin_cash-with_outputs :
      (w : List ℕ) (doc : SighashDocument) (os : List Output) (d : ℕ)
      → d < 256
      → Sighash.base d ≡ Sighash.no_outputs
      → Sighash.write_bitcoin_cash sha2_256 past_end w (with_outputs doc os) d
        ≡ Sighash.write_bitcoin_cash sha2_256 past_end w doc d
  unfolding Sighash.write_bitcoin_cash
  write_bitcoin_cash-with_outputs w doc os d byte free =
      rw
        (
          amaury-with_outputs w doc os d byte free,
          original-with_outputs past_end doc os (bit_and d 0xbf) w
              (base-without_fork_id d byte ∙ free),
        )
        refl

-- the document with other inputs, and the index of its own among them
unfoldable pub with_inputs : SighashDocument → List Document.Input → ℕ → SighashDocument
with_inputs doc xs j = record doc {
  signed_transaction = record doc.signed_transaction { inputs = xs };
  index_of_input = j;
}

module _ (sha2_256 : List ℕ → List ℕ) (past_end : Read ℕ) (doc : SighashDocument)
    (xs : List Document.Input) (j : ℕ)
    (own : get_elem? xs j ≡ get_elem? doc.signed_transaction.inputs doc.index_of_input) where
  original-with_inputs :
      (w : List ℕ) (d : ℕ)
      → Sighash.is_anyone_can_pay d ≡ true
      → (Sighash.base d == Sighash.single) ≡ false
      → Sighash.write_original past_end w (with_inputs doc xs j) d
        ≡ Sighash.write_original past_end w doc d
  unfolding Sighash.write_original Sighash.reconstruct Sighash.inputs_of Sighash.signed_outputs
      with_inputs
  original-with_inputs w d anyone other = rw (anyone, other, own) refl

  amaury-with_inputs :
      (w : List ℕ) (d : ℕ)
      → d < 256
      → Sighash.is_anyone_can_pay d ≡ true
      → (Sighash.base d == Sighash.single) ≡ false
      → Sighash.write_amaury sha2_256 past_end w (with_inputs doc xs j) d
        ≡ Sighash.write_amaury sha2_256 past_end w doc d
  unfolding Sighash.write_amaury Sighash.outputs_digest Sighash.preimage Sighash.sequence_digest
      Sighash.prevouts_digest Sighash.hash_outputs with_inputs
  amaury-with_inputs w d byte anyone other =
      rw
        (
          original-with_inputs w (bit_and d 0xbf) (any-without_fork_id d byte ∙ anyone)
              (ap (λ n. n == Sighash.single) (base-without_fork_id d byte) ∙ other),
          anyone,
          other,
          own,
        )
        refl

  -- Where anyone can pay, and it is not one output that is signed, the other inputs may change and what
  -- is signed stays.
  pub write_bitcoin_cash-with_inputs :
      (w : List ℕ) (d : ℕ)
      → d < 256
      → Sighash.is_anyone_can_pay d ≡ true
      → (Sighash.base d == Sighash.single) ≡ false
      → Sighash.write_bitcoin_cash sha2_256 past_end w (with_inputs doc xs j) d
        ≡ Sighash.write_bitcoin_cash sha2_256 past_end w doc d
  unfolding Sighash.write_bitcoin_cash
  write_bitcoin_cash-with_inputs w d byte anyone other =
      rw
        (
          amaury-with_inputs w d byte anyone other,
          original-with_inputs w (bit_and d 0xbf) (any-without_fork_id d byte ∙ anyone)
              (ap (λ n. n == Sighash.single) (base-without_fork_id d byte) ∙ other),
        )
        refl
