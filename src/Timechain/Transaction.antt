-- ===== src/Timechain/Transaction.antt =====
-- include/gigamonkey/timechain.hpp and src/gigamonkey/timechain.cpp: outpoints, inputs, outputs and
-- transactions, how they are written, read and measured. A number of 32 bits is its word, and so is the
-- version. A digest is its bytes. A reader is the bytes that are left; what the data library does where
-- none are left is the parameter `past_end`, which is `none` where it throws `end_of_stream`.
pub mod RoundTrip
pub mod Size
use gigamonkey.Base.{
  ℕ, ◌+◌, ◌-◌, ◌^◌, ◌%◌, List, [], ◌∷◌, ◌++◌, Option, none, some, Bool, true, false,
}
use gigamonkey.Base.{
  ltb, leb, ◌==◌, ◌!=◌, not, ◌&&◌, ◌||◌, if◌then◌else◌, length, bit_and, replicate, drop, take,
}
use gigamonkey.Base.Bytes.{to_little}
use gigamonkey.Base.Int.{ℤ, pos, negsuc, ltb_ℤ, ◌+ℤ◌}
use gigamonkey.Merkle.Proof.{no_digest}
use gigamonkey.P2p.VarInt.{
  Read, ◌>>=◌, size, sizes, read_bytes, read_little, read_string, read_sequence, write_string,
  write_sequence,
}
use gigamonkey.Script.Document.{Outpoint, Output}
use gigamonkey.Script.Instruction.Program.{Program, decompile}

-- the word of an int64, and the int64 of a word
unfoldable pub word64 : ℤ → ℕ
word64 (pos n) = n % 2 ^ 64
word64 (negsuc n) = 2 ^ 64 - 1 - n % 2 ^ 64

unfoldable pub int64_of : ℕ → ℤ
int64_of w = if ltb w (2 ^ 63) then pos w else negsuc (2 ^ 64 - 1 - w)

pub record Input : Type 0 where
  pub reference : Outpoint
  pub script : List ℕ
  pub sequence : ℕ

pub record Transaction : Type 0 where
  pub version : ℕ
  pub inputs : List Input
  pub outputs : List Output
  pub locktime : ℕ

-- `transaction {}` and `output {}`
unfoldable pub no_transaction : Transaction
no_transaction = record { version = 0; inputs = []; outputs = []; locktime = 0 }

unfoldable pub no_output : Output
no_output = record { value = negsuc 0; script = [] }

-- `w << o`
unfoldable pub write_outpoint : List ℕ → Outpoint → List ℕ
write_outpoint w o = (w ++ o.digest) ++ to_little 4 o.index

unfoldable pub write_input : List ℕ → Input → List ℕ
write_input w i = write_string (write_outpoint w i.reference) i.script ++ to_little 4 i.sequence

unfoldable pub write_output : List ℕ → Output → List ℕ
write_output w o = write_string (w ++ to_little 8 (word64 o.value)) o.script

unfoldable pub write_transaction : List ℕ → Transaction → List ℕ
write_transaction w t =
    let versioned = w ++ to_little 4 t.version in
    let spent = write_sequence write_input versioned t.inputs in
    write_sequence write_output spent t.outputs ++ to_little 4 t.locktime

-- `serialized_size`
unfoldable pub input_size : Input → ℕ
input_size i = 40 + size (length i.script) + length i.script

unfoldable pub output_size : Output → ℕ
output_size o = 8 + size (length o.script) + length o.script

unfoldable pub transaction_size : Transaction → ℕ
transaction_size t =
    8
    + size (length t.inputs)
    + size (length t.outputs)
    + sizes input_size t.inputs
    + sizes output_size t.outputs

-- the conversions to bytes
unfoldable pub output_bytes : Output → List ℕ
output_bytes o = write_output [] o

unfoldable pub transaction_bytes : Transaction → List ℕ
transaction_bytes t = write_transaction [] t

-- the loops of `transaction::valid`
unfoldable pub all_valid : {A : Type 0} → (A → Option Bool) → List A → Option Bool
all_valid f [] = some true
all_valid f (x ∷ xs) = let others = all_valid f xs in (do v ← f x; if v then others else some false)

module _ (past_end : Read ℕ) where
  -- `r >> o`
  unfoldable pub read_outpoint : List ℕ → Read Outpoint
  read_outpoint r = do
    (d, r1) ← read_bytes past_end 32 r
    (i, r2) ← read_little past_end 4 r1
    some (record { digest = d; index = i }, r2)

  unfoldable pub read_input : List ℕ → Read Input
  read_input r = do
    (o, r1) ← read_outpoint r
    (x, r2) ← read_string past_end r1
    (z, r3) ← read_little past_end 4 r2
    some (record { reference = o; script = x; sequence = z }, r3)

  unfoldable pub read_output : List ℕ → Read Output
  read_output r = do
    (v, r1) ← read_little past_end 8 r
    (x, r2) ← read_string past_end r1
    some (record { value = int64_of v; script = x }, r2)

  unfoldable pub read_transaction : List ℕ → Read Transaction
  read_transaction r = do
    (v, r1) ← read_little past_end 4 r
    (is, r2) ← read_sequence past_end read_input r1
    (os, r3) ← read_sequence past_end read_output r2
    (l, r4) ← read_little past_end 4 r3
    some (record { version = v; inputs = is; outputs = os; locktime = l }, r4)

  -- the constructors from bytes, which catch `end_of_stream`
  unfoldable pub output_of_bytes : List ℕ → Output
  output_of_bytes b = elim (read_output b) [ none ↦ no_output | some (o, r) ↦ o ]

  unfoldable pub transaction_of_bytes : List ℕ → Transaction
  transaction_of_bytes b = elim (read_transaction b) [ none ↦ no_transaction | some (t, r) ↦ t ]

  -- `output::value` of a serialized output
  unfoldable pub value_of_bytes : List ℕ → ℤ
  value_of_bytes b = elim (read_little past_end 8 b) [ none ↦ negsuc 0 | some (v, r) ↦ int64_of v ]

  -- `decompile (script) != program {}`. `decompile` answers with a program or throws.
  unfoldable pub is_program : List ℕ → Option Bool
  is_program script = do p ← decompile past_end script; some (elim p [ [] ↦ false | i ∷ is ↦ true ])

  unfoldable pub input_valid : Input → Option Bool
  input_valid i = is_program i.script

  unfoldable pub output_valid : Output → Option Bool
  output_valid o = if ltb_ℤ o.value (pos 2100000000000000) then is_program o.script else some false

  unfoldable pub transaction_valid : Transaction → Option Bool
  transaction_valid t = if length t.inputs == 0 || length t.outputs == 0 then some false else (do
    ins ← all_valid input_valid t.inputs
    if ins then all_valid output_valid t.outputs else some false)

-- `transaction::sent`, the sum of the values as int64s
unfoldable pub sum_values : ℤ → List Output → ℤ
sum_values x [] = x
sum_values x (o ∷ os) = sum_values (int64_of (word64 (x +ℤ o.value))) os

unfoldable pub sent : Transaction → ℤ
sent t = sum_values (pos 0) t.outputs
