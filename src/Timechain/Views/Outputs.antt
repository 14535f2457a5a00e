-- ===== src/Timechain/Views/Outputs.antt =====
-- Timechain/Views.antt: which outputs `transaction::output` sees in a serialized transaction.
use gigamonkey.Base.{
  ℕ, ◌^◌, ◌<◌, Bool, false, Bool-cases, inl, inr, bit_and, if◌then◌else◌, ◌≤◌, ◌≡◌, refl, arith,
  List, [], ◌++◌, Option, append_assoc, some, true, length, leb, ◌==◌, ◌||◌,
}
use gigamonkey.Base.Bytes.{to_little}
use gigamonkey.P2p.VarInt.{Read, write, write_sequence}
use gigamonkey.P2p.VarInt.RoundTrip.{
  read-write, read_little-to_little, write_sequence-joined, joined,
}
use gigamonkey.Timechain.Transaction.{
  Input, Transaction, write_input, write_output, read_input, transaction_bytes,
}
use gigamonkey.Timechain.Transaction.RoundTrip.{
  FitsTransaction, FitsInput, write_transaction-append, write_input-append, read_input-write_input,
}
use gigamonkey.Timechain.Views.{
  read_transaction_version, transaction_outputs, output_throws, output_view,
}

if_same : (c : Bool) (x : Option (List ℕ)) → (if c then x else x) ≡ x
if_same true x = refl
if_same false x = refl

module _ (past_end : Read ℕ) (skip : ℕ → List ℕ → Option (List ℕ)) where
  -- the versions that the code knows
  abbrev is_known : ℕ → Bool
  is_known v = v == 1 || bit_and v 0xE0001FFF == 2

  transaction_outputs-known :
      (v : ℕ) (rest : List ℕ)
      → v < 2 ^ 32
      → transaction_outputs past_end (to_little 4 v ++ rest) ≡ some (is_known v, rest)
  unfolding transaction_outputs read_transaction_version
  transaction_outputs-known v rest fits =
      rw (read_little-to_little past_end 4 v rest fits) (elim (Bool-cases (v == 1)) [
        | inl one ↦ rw (one) refl
        | inr other ↦ elim (Bool-cases (bit_and v 0xE0001FFF == 2)) [
          | inl two ↦ rw (other, two) refl
          | inr unknown ↦ rw (other, unknown) refl
        ]
      ])

  inputs-joined :
      (l : List Input)
      → write_sequence write_input [] l ≡ write [] (length l) ++ joined (write_input []) l
  inputs-joined =
      write_sequence-joined past_end write_input (read_input past_end) (write_input []) FitsInput
        write_input-append (read_input-write_input past_end)

  output_throws_past_inputs :
      (t : Transaction) (i : ℕ)
      → FitsTransaction t
      → length t.inputs ≤ i
      → output_throws past_end skip (transaction_bytes t) i ≡ some []
  unfolding output_throws transaction_bytes FitsTransaction
  output_throws_past_inputs t i (version, (ins, few), outs, lock) past =
      let outputs : List ℕ = write_sequence write_output [] t.outputs ++ to_little 4 t.locktime in
      let beyond : (length t.inputs == 0 || leb (length t.inputs) i) ≡ true =
        ground (arith, past) in
      rw
        (
          write_transaction-append past_end [] t,
          transaction_outputs-known t.version (write_sequence write_input [] t.inputs ++ outputs)
              version,
          inputs-joined t.inputs,
          append_assoc,
          read-write past_end (length t.inputs) (joined (write_input []) t.inputs ++ outputs) few,
          beyond,
        )
        (if_same (is_known t.version) (some []))

  -- From the number of its inputs on, `transaction::output` finds no output in a serialized transaction,
  -- however many outputs it has and whatever its version is. Its numbers fit the fields that they are
  -- written in.
  pub output_view_past_inputs :
      (t : Transaction) (i : ℕ)
      → FitsTransaction t
      → length t.inputs ≤ i
      → output_view past_end skip (transaction_bytes t) i ≡ []
  unfolding output_view
  output_view_past_inputs t i fits past =
      rw (output_throws_past_inputs t i fits past, output_view) refl
