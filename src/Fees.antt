-- ===== src/Fees.antt =====
-- include/gigamonkey/fees.hpp: the design of a transaction, its expected size and its fee, and what of it
-- is signed. Sizes are uint64s and are taken to be below 2 ^ 64; amounts are int64s. Rates are
-- floating-point numbers and are left out.
pub mod Expected
use gigamonkey.Base.{ℕ, suc, ◌+◌, ◌%◌, ◌^◌, List, [], ◌∷◌, ◌++◌, Option, none, some, length}
use gigamonkey.Base.Int.{ℤ, pos, ◌+ℤ◌, ◌-ℤ◌}
use gigamonkey.P2p.VarInt.{size, sizes}
use gigamonkey.Script.Document
use gigamonkey.Script.Document.{Outpoint, Output, SighashDocument}
use gigamonkey.Timechain.Incomplete.{complete}
use gigamonkey.Timechain.Transaction.{Transaction, word64, int64_of, output_size}
use mathlib.Core.List.{map}

-- `transaction_design::input`; a `prevout` is its key and its value
pub record DesignInput : Type 0 where
  pub reference : Outpoint
  pub redeemed : Output
  pub expected_script_size : ℕ
  pub sequence : ℕ
  pub input_script_so_far : List ℕ

-- `transaction_design`
pub record TransactionDesign : Type 0 where
  pub version : ℕ
  pub inputs : List DesignInput
  pub outputs : List Output
  pub locktime : ℕ

-- the conversion of an input to an incomplete one
unfoldable pub incomplete_of_input : DesignInput → Document.Input
incomplete_of_input i = record { reference = i.reference; sequence = i.sequence }

-- `input::serialized_size` and `input::script_code`
unfoldable pub expected_input_size : DesignInput → ℕ
expected_input_size i = 40 + size i.expected_script_size + i.expected_script_size

unfoldable pub script_code : DesignInput → List ℕ
script_code i = i.redeemed.script ++ i.input_script_so_far

-- `expected_size`, which has the number of inputs twice
unfoldable pub expected_size : TransactionDesign → ℕ
expected_size t =
    8
    + size (length t.inputs)
    + size (length t.inputs)
    + sizes expected_input_size t.inputs
    + sizes output_size t.outputs

-- a sum of int64s
unfoldable pub plus : ℤ → ℤ → ℤ
plus x y = int64_of (word64 (x +ℤ y))

-- `spent`, `sent` and `fee`
unfoldable pub sum_spent : ℤ → List DesignInput → ℤ
sum_spent x [] = x
sum_spent x (i ∷ is) = sum_spent (plus i.redeemed.value x) is

unfoldable pub spent : TransactionDesign → ℤ
spent t = sum_spent (pos 0) t.inputs

unfoldable pub sum_sent : ℤ → List Output → ℤ
sum_sent x [] = x
sum_sent x (o ∷ os) = sum_sent (plus o.value x) os

unfoldable pub sent : TransactionDesign → ℤ
sent t = sum_sent (pos 0) t.outputs

unfoldable pub fee : TransactionDesign → ℤ
fee t = int64_of (word64 (spent t -ℤ sent t))

-- the conversion to an incomplete transaction
unfoldable pub incomplete_of_design : TransactionDesign → Document.Transaction
incomplete_of_design t = record {
  version = t.version;
  inputs = map incomplete_of_input t.inputs;
  outputs = t.outputs;
  locktime = t.locktime;
}

-- `documents`, with the index of the first
unfoldable pub documents_from : Document.Transaction → ℕ → List DesignInput → List SighashDocument
documents_from incomplete index [] = []
documents_from incomplete index (i ∷ is) =
    record {
      redeemed = i.redeemed.value;
      script_code = script_code i;
      signed_transaction = incomplete;
      index_of_input = index;
    }
    ∷ documents_from incomplete ((index + 1) % 2 ^ 32) is

unfoldable pub documents : TransactionDesign → List SighashDocument
documents t = documents_from (incomplete_of_design t) 0 t.inputs

-- the transaction of the vertex that `complete` makes
unfoldable pub complete_design : TransactionDesign → List (List ℕ) → Option Transaction
complete_design t redeem = complete (incomplete_of_design t) redeem

-- the previous outputs of the vertex, as a list of entries, the last that was inserted first
unfoldable pub previous : List (Outpoint × Output) → List DesignInput → List (Outpoint × Output)
previous m [] = m
previous m (i ∷ is) = previous ((i.reference, i.redeemed) ∷ m) is
