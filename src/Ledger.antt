-- ===== src/Ledger.antt =====
-- include/gigamonkey/ledger.hpp and src/gigamonkey/ledger.cpp: transactions with the outputs that they
-- redeem, and when these are valid. A map is the list of its entries; a list is valid where its items
-- are. The flags of the evaluation are a parameter.
pub mod Valid
use gigamonkey.Base.{
  ℕ, suc, ◌+◌, ◌%◌, ◌^◌, List, [], ◌∷◌, Option, none, some, Bool, true, false, ◌==◌, ◌&&◌,
  if◌then◌else◌,
}
use gigamonkey.Base.Int.{ℤ, pos, ◌+ℤ◌, ◌-ℤ◌, ltb_ℤ}
use gigamonkey.P2p.VarInt.{Read, ◌>>=◌}
use gigamonkey.Script.Counter.{same_bytes}
use gigamonkey.Script.Document
use gigamonkey.Script.Document.{Outpoint, Output, RedemptionDocument, Signatures}
use gigamonkey.Script.Error.{EvalResult}
use gigamonkey.Script.Instruction.{is_ok}
use gigamonkey.Script.Machine.Crypto.{Hashes}
use gigamonkey.Script.Machine.Evaluate.{evaluate}
use gigamonkey.Sv.BigNum.{BigNum}
use gigamonkey.Timechain.Incomplete.{incomplete}
use gigamonkey.Timechain.Transaction.{
  Input, Transaction, word64, int64_of, sent, input_valid, output_valid, transaction_valid,
  all_valid,
}

-- `edge` and `vertex`
pub record Edge : Type 0 where
  pub output : Output
  pub input : Input

pub record Vertex : Type 0 where
  pub transaction : Transaction
  pub previous : List (Outpoint × Output)

-- `==` of outpoints
unfoldable pub same_outpoint : Outpoint → Outpoint → Bool
same_outpoint a b = same_bytes a.digest b.digest && a.index == b.index

-- `Previous [o]`, and `Previous.contains (o)`
unfoldable pub find_output : List (Outpoint × Output) → Outpoint → Option Output
find_output [] o = none
find_output ((k, v) ∷ m) o = if same_outpoint k o then some v else find_output m o

unfoldable pub contains : List (Outpoint × Output) → Outpoint → Bool
contains m o = elim (find_output m o) [ none ↦ false | some v ↦ true ]

unfoldable pub contains_all : List (Outpoint × Output) → List Input → Bool
contains_all m [] = true
contains_all m (i ∷ is) = if contains m i.reference then contains_all m is else false

-- `vertex::incoming_edges`
unfoldable pub edges_of : List (Outpoint × Output) → List Input → Option (List Edge)
edges_of m [] = some []
edges_of m (i ∷ is) = do
  o ← find_output m i.reference
  es ← edges_of m is
  some (record { output = o; input = i } ∷ es)

unfoldable pub incoming_edges : Vertex → Option (List Edge)
incoming_edges v = edges_of v.previous v.transaction.inputs

-- `vertex::spent` of its edges, and `vertex::fee`
unfoldable pub sum_spent : ℤ → List Edge → ℤ
sum_spent x [] = x
sum_spent x (e ∷ es) = sum_spent (int64_of (word64 (x +ℤ e.output.value))) es

unfoldable pub spent : List Edge → ℤ
spent es = sum_spent (pos 0) es

unfoldable pub vertex_fee : Vertex → Option ℤ
vertex_fee v = do es ← incoming_edges v; some (int64_of (word64 (spent es -ℤ sent v.transaction)))

-- `result::operator bool`
unfoldable pub is_success : EvalResult → Bool
is_success r = is_ok r.error && r.success

module _ (past_end : Read ℕ) where
  -- `edge::valid`
  unfoldable pub edge_valid : Edge → Option Bool
  edge_valid e = do
    o ← output_valid past_end e.output
    if o then input_valid past_end e.input else some false

  module _ (b : BigNum) (h : Hashes) (g : Signatures) (fuel flags : ℕ) where
    -- the evaluation of an edge, by its index
    unfoldable pub evaluate_edge : Transaction → ℕ → Edge → Option EvalResult
    evaluate_edge t index e =
        evaluate past_end b h g fuel
          (some (record {
            redeemed_value = e.output.value;
            transaction = incomplete t;
            input_index = index;
          }))
          e.input.script e.output.script flags

    -- the last loop of `vertex::valid`
    unfoldable pub evaluate_all : Transaction → ℕ → List Edge → Option Bool
    evaluate_all t index [] = some true
    evaluate_all t index (e ∷ es) =
        let others = evaluate_all t ((index + 1) % 2 ^ 32) es in
        (do r ← evaluate_edge t index e; if is_success r then others else some false)

    -- what `vertex::valid` asks of the edges
    unfoldable pub edges_valid : Vertex → List Edge → Option Bool
    edges_valid v es = do
      valid ← all_valid edge_valid es
      if valid
          then (if ltb_ℤ (spent es) (sent v.transaction)
              then some false
              else evaluate_all v.transaction 0 es)
          else some false

    -- `vertex::valid`
    unfoldable pub vertex_valid : Vertex → Option Bool
    vertex_valid v = do
      valid ← transaction_valid past_end v.transaction
      if valid
          then (if contains_all v.previous v.transaction.inputs
              then (do es ← incoming_edges v; edges_valid v es)
              else some false)
          else some false
