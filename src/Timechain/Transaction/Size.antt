-- ===== src/Timechain/Transaction/Size.antt =====
-- src/gigamonkey/timechain.cpp: what is measured is what is written.
use gigamonkey.Base.{ℕ, ◌+◌, ◌≡◌, ap, arith, List, [], ◌∷◌, ◌++◌, length, length-append, All}
use gigamonkey.Base.Bytes.{to_little, length-to_little}
use gigamonkey.P2p.VarInt.Size.{length-write_sequence}
use gigamonkey.P2p.VarInt.{write_string, write_sequence}
use gigamonkey.P2p.VarInt.RoundTrip.{length-write_string, write_string-append}
use gigamonkey.Script.Document.{Output}
use gigamonkey.Timechain.Transaction.{
  Input, Transaction, word64, input_size, output_size, transaction_size, write_outpoint,
  write_input, write_output, write_transaction, transaction_bytes,
}

-- the inputs refer to digests of 32 bytes
abbrev pub HasDigest : Input → Type 0
HasDigest i = length i.reference.digest ≡ 32

pub length-write_input :
    (w : List ℕ) (i : Input) → HasDigest i → length (write_input w i) ≡ length w + input_size i
unfolding write_input write_outpoint input_size
length-write_input w i digest =
    let reference : List ℕ = (w ++ i.reference.digest) ++ to_little 4 i.reference.index in
    omega (
      arith,
      length-append (write_string reference i.script) (to_little 4 i.sequence),
      ap length (write_string-append reference i.script),
      length-append reference (write_string [] i.script),
      length-write_string i.script,
      length-append (w ++ i.reference.digest) (to_little 4 i.reference.index),
      length-append w i.reference.digest,
      length-to_little 4 i.reference.index,
      length-to_little 4 i.sequence,
      digest,
    )

pub length-write_output :
    (w : List ℕ) (o : Output) → length (write_output w o) ≡ length w + output_size o
unfolding write_output output_size
length-write_output w o =
    let valued : List ℕ = w ++ to_little 8 (word64 o.value) in
    omega (
      arith,
      ap length (write_string-append valued o.script),
      length-append valued (write_string [] o.script),
      length-write_string o.script,
      length-append w (to_little 8 (word64 o.value)),
      length-to_little 8 (word64 o.value),
    )

output_length :
    (w : List ℕ) (o : Output) → Unit {0} → length (write_output w o) ≡ length w + output_size o
output_length w o u = length-write_output w o

any : (l : List Output) → All (λ o. Unit {0}) l
any [] = tt
any (o ∷ l) = (tt, any l)

-- `serialized_size` is the number of bytes that are written.
pub length-transaction_bytes :
    (t : Transaction) → All HasDigest t.inputs → length (transaction_bytes t) ≡ transaction_size t
unfolding transaction_bytes write_transaction transaction_size
length-transaction_bytes t digests =
    let versioned : List ℕ = to_little 4 t.version in
    let spent : List ℕ = write_sequence write_input versioned t.inputs in
    omega (
      arith,
      length-append (write_sequence write_output spent t.outputs) (to_little 4 t.locktime),
      length-write_sequence write_output output_size (λ o. Unit {0}) output_length spent t.outputs
          (any t.outputs),
      length-write_sequence write_input input_size HasDigest length-write_input versioned t.inputs
          digests,
      length-to_little 4 t.version,
      length-to_little 4 t.locktime,
    )
