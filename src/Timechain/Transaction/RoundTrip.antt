-- ===== src/Timechain/Transaction/RoundTrip.antt =====
-- Timechain/Transaction.antt: transactions that fit their fields are read back as they were written.
use gigamonkey.Base.{ℕ, ◌^◌, ◌<◌, ◌≡◌, refl, arith, List, [], ◌++◌, append_assoc, some}
use gigamonkey.Base.{length, All}
use gigamonkey.Base.Bytes.{to_little}
use gigamonkey.Base.Int.{ℤ, pos, negsuc}
use gigamonkey.P2p.VarInt.{Read, read_sequence, write_string, write_sequence}
use gigamonkey.P2p.VarInt.RoundTrip.{
  write_string-append, write_sequence-append, read_bytes_prefix, read_little-to_little,
  read_string-write_string, read_sequence-fitting,
}
use gigamonkey.Script.Document.{Outpoint, Output}
use gigamonkey.Timechain.Transaction.{
  Input, Transaction, word64, int64_of, write_outpoint, write_input, write_output,
  write_transaction, read_outpoint, read_input, read_output, read_transaction, transaction_bytes,
  transaction_of_bytes,
}

-- numbers that an int64 holds
unfoldable pub IsInt64 : ℤ → Type 0
IsInt64 (pos n) = n < 2 ^ 63
IsInt64 (negsuc n) = n < 2 ^ 63

abbrev pub FitsOutpoint : Outpoint → Type 0
FitsOutpoint o = (length o.digest ≡ 32) × (o.index < 2 ^ 32)

abbrev pub FitsInput : Input → Type 0
FitsInput i = FitsOutpoint i.reference × (length i.script < 2 ^ 64) × (i.sequence < 2 ^ 32)

abbrev pub FitsOutput : Output → Type 0
FitsOutput o = IsInt64 o.value × (length o.script < 2 ^ 64)

-- The fields are within the widths of their types, and there are fewer inputs and outputs than a
-- `var_int` counts.
unfoldable pub FitsTransaction : Transaction → Type 0
FitsTransaction t =
    (t.version < 2 ^ 32)
    × (All FitsInput t.inputs × (length t.inputs < 2 ^ 64))
    × (All FitsOutput t.outputs × (length t.outputs < 2 ^ 64))
    × (t.locktime < 2 ^ 32)

pub word64_lt : (z : ℤ) → word64 z < 2 ^ 64
unfolding word64
word64_lt (pos n) = omega arith
word64_lt (negsuc n) = omega arith

pub int64_of-word64 : (z : ℤ) → IsInt64 z → int64_of (word64 z) ≡ z
unfolding int64_of word64 IsInt64
int64_of-word64 (pos n) h = ground (arith, h)
int64_of-word64 (negsuc n) h = ground (arith, h)

pub write_outpoint-append :
    (w : List ℕ) (o : Outpoint) → write_outpoint w o ≡ w ++ write_outpoint [] o
unfolding write_outpoint
write_outpoint-append w o = append_assoc w o.digest (to_little 4 o.index)

pub write_input-append : (w : List ℕ) (i : Input) → write_input w i ≡ w ++ write_input [] i
unfolding write_input
write_input-append w i =
    rw
      (
        write_string-append (write_outpoint w i.reference) i.script,
        write_string-append (write_outpoint [] i.reference) i.script,
        write_outpoint-append w i.reference,
        append_assoc,
        append_assoc,
        append_assoc,
      )
      refl

pub write_output-append : (w : List ℕ) (o : Output) → write_output w o ≡ w ++ write_output [] o
unfolding write_output
write_output-append w o =
    rw
      (
        write_string-append (w ++ to_little 8 (word64 o.value)) o.script,
        write_string-append (to_little 8 (word64 o.value)) o.script,
        append_assoc,
      )
      refl

module _ (past_end : Read ℕ) where
  read_outpoint-write_outpoint :
      (o : Outpoint) (rest : List ℕ)
      → FitsOutpoint o
      → read_outpoint past_end (write_outpoint [] o ++ rest) ≡ some (o, rest)
  unfolding read_outpoint write_outpoint
  read_outpoint-write_outpoint o rest (size, fits) =
      rw
        (
          append_assoc,
          read_bytes_prefix past_end 32 o.digest (to_little 4 o.index ++ rest) size,
          read_little-to_little past_end 4 o.index rest fits,
        )
        refl

  pub read_input-write_input :
      (i : Input) (rest : List ℕ)
      → FitsInput i
      → read_input past_end (write_input [] i ++ rest) ≡ some (i, rest)
  unfolding read_input write_input
  read_input-write_input i rest (reference, script, sequence) =
      rw
        (
          write_string-append (write_outpoint [] i.reference) i.script,
          append_assoc,
          append_assoc,
          read_outpoint-write_outpoint i.reference
              (write_string [] i.script ++ (to_little 4 i.sequence ++ rest)) reference,
          read_string-write_string past_end i.script (to_little 4 i.sequence ++ rest) script,
          read_little-to_little past_end 4 i.sequence rest sequence,
        )
        refl

  read_output-write_output :
      (o : Output) (rest : List ℕ)
      → FitsOutput o
      → read_output past_end (write_output [] o ++ rest) ≡ some (o, rest)
  unfolding read_output write_output
  read_output-write_output o rest (value, script) =
      rw
        (
          write_string-append (to_little 8 (word64 o.value)) o.script,
          append_assoc,
          read_little-to_little past_end 8 (word64 o.value) (write_string [] o.script ++ rest)
              (word64_lt o.value),
          read_string-write_string past_end o.script rest script,
          int64_of-word64 o.value value,
        )
        refl

  pub inputs-append :
      (w : List ℕ) (l : List Input)
      → write_sequence write_input w l ≡ w ++ write_sequence write_input [] l
  inputs-append =
      write_sequence-append past_end write_input (read_input past_end) (write_input []) FitsInput
        write_input-append read_input-write_input

  pub outputs-append :
      (w : List ℕ) (l : List Output)
      → write_sequence write_output w l ≡ w ++ write_sequence write_output [] l
  outputs-append =
      write_sequence-append past_end write_output (read_output past_end) (write_output [])
        FitsOutput write_output-append read_output-write_output

  read_inputs :
      (l : List Input) (rest : List ℕ)
      → All FitsInput l
      → length l < 2 ^ 64
      → read_sequence past_end (read_input past_end) (write_sequence write_input [] l ++ rest)
        ≡ some (l, rest)
  read_inputs =
      read_sequence-fitting past_end write_input (read_input past_end) (write_input []) FitsInput
        write_input-append read_input-write_input

  read_outputs :
      (l : List Output) (rest : List ℕ)
      → All FitsOutput l
      → length l < 2 ^ 64
      → read_sequence past_end (read_output past_end) (write_sequence write_output [] l ++ rest)
        ≡ some (l, rest)
  read_outputs =
      read_sequence-fitting past_end write_output (read_output past_end) (write_output [])
        FitsOutput write_output-append read_output-write_output

  -- The parts of a written transaction, one after the other
  pub write_transaction-append :
      (w : List ℕ) (t : Transaction)
      → write_transaction w t
        ≡ w
          ++ (to_little 4 t.version
              ++ (write_sequence write_input [] t.inputs
                  ++ (write_sequence write_output [] t.outputs ++ to_little 4 t.locktime)))
  unfolding write_transaction
  write_transaction-append w t =
      rw
        (
          outputs-append (write_sequence write_input (w ++ to_little 4 t.version) t.inputs)
              t.outputs,
          inputs-append (w ++ to_little 4 t.version) t.inputs,
          append_assoc,
          append_assoc,
          append_assoc,
        )
        refl

  pub read_transaction-write_transaction :
      (t : Transaction) (rest : List ℕ)
      → FitsTransaction t
      → read_transaction past_end (write_transaction [] t ++ rest) ≡ some (t, rest)
  unfolding read_transaction FitsTransaction
  read_transaction-write_transaction t rest (version, (ins, few_ins), (outs, few_outs), lock) =
      let locked : List ℕ = to_little 4 t.locktime ++ rest in
      let sent_and_locked : List ℕ = write_sequence write_output [] t.outputs ++ locked in
      rw
        (
          write_transaction-append [] t,
          append_assoc,
          append_assoc,
          append_assoc,
          append_assoc,
          read_little-to_little past_end 4 t.version
              (write_sequence write_input [] t.inputs ++ sent_and_locked) version,
          read_inputs t.inputs sent_and_locked ins few_ins,
          read_outputs t.outputs locked outs few_outs,
          read_little-to_little past_end 4 t.locktime rest lock,
        )
        refl

  -- A transaction that fits its fields is the transaction of its bytes, also where others follow.
  pub transaction_of_bytes-transaction_bytes :
      (t : Transaction) (rest : List ℕ)
      → FitsTransaction t
      → transaction_of_bytes past_end (transaction_bytes t ++ rest) ≡ t
  unfolding transaction_of_bytes transaction_bytes
  transaction_of_bytes-transaction_bytes t rest fits =
      rw (read_transaction-write_transaction t rest fits, transaction_of_bytes) refl
