-- ===== src/Timechain/Views.antt =====
-- src/gigamonkey/timechain.cpp and include/gigamonkey/timechain.hpp: views of serialized blocks and
-- transactions. How the data library skips bytes is the parameter `skip`.
pub mod Slices
pub mod Outputs
use gigamonkey.Base.{
  ℕ, zero, suc, ◌+◌, ◌-◌, List, [], ◌∷◌, ◌++◌, Option, none, some, Bool, true, false,
}
use gigamonkey.Base.{leb, ◌==◌, ◌||◌, if◌then◌else◌, length, take, bit_and}
use mathlib.Core.List.{map}
use gigamonkey.Merkle.Proof.{Digest, hash256}
use gigamonkey.Merkle.Rounds.{root}
use gigamonkey.P2p.VarInt.{Read, ◌>>=◌, size, read, read_little}
use gigamonkey.Timechain.Header.{read_header}
use gigamonkey.Timechain.Transaction.{read_transaction}

module _ (past_end : Read ℕ) where
  -- the loop of `block::transactions`
  unfoldable pub slices : ℕ → List ℕ → Option (List (List ℕ))
  slices zero r = some []
  slices (suc n) r = do
    (t, r') ← read_transaction past_end r
    xs ← slices n r'
    some (take (length r - length r') r ∷ xs)

  -- `block::transactions`
  unfoldable pub transactions : List ℕ → Option (List (List ℕ))
  transactions b = do
    (h, r1) ← read_header past_end b
    (num_txs, r2) ← read past_end r1
    slices num_txs r2

  -- `block::merkle_root` of a serialized block
  unfoldable pub merkle_root_of_bytes : (List ℕ → List ℕ) → List ℕ → Option Digest
  merkle_root_of_bytes sha2_256 b = do
    xs ← transactions b
    root sha2_256 (map (hash256 sha2_256) xs)

  -- `read_transaction_version`: the version that is left, and whether it is one that is known
  unfoldable pub read_transaction_version : List ℕ → Read (Bool × ℕ)
  read_transaction_version r = do
    (v, r') ← read_little past_end 4 r
    if v == 1
        then some ((true, v), r')
        else if bit_and v 0xE0001FFF == 2
        then some ((true, 2), r')
        else some ((false, 0xffff_ffff), r')

  -- `transaction_outputs`
  unfoldable pub transaction_outputs : List ℕ → Read Bool
  transaction_outputs r = do ((known, v), r') ← read_transaction_version r; some (known, r')

  module _ (skip : ℕ → List ℕ → Option (List ℕ)) where
    -- `scan_output`
    unfoldable pub scan_output : List ℕ → Read (List ℕ)
    scan_output r = do
      (value, r1) ← read_little past_end 8 r
      (script_size, r2) ← read past_end r1
      r3 ← skip script_size r2
      some (take (script_size + 8 + size script_size) r, r3)

    -- an output that is empty ends the loop
    abbrev output_or : List ℕ → Option (List ℕ) → Option (List ℕ)
    output_or [] rest = some []
    output_or (b ∷ bs) rest = rest

    -- the loop of `transaction::output`
    unfoldable pub output_loop : ℕ → List ℕ → Option (List ℕ)
    output_loop zero r = do (output, r') ← scan_output r; output_or output (some output)
    output_loop (suc i) r = do (output, r') ← scan_output r; output_or output (output_loop i r')

    -- `transaction::output`, with what it throws
    unfoldable pub output_throws : List ℕ → ℕ → Option (List ℕ)
    output_throws b i = do
      (known, r1) ← transaction_outputs b
      if known
          then (do
            (num_outputs, r2) ← read past_end r1
            if num_outputs == 0 || leb num_outputs i then some [] else output_loop i r2)
          else some []

    -- `transaction::output`
    unfoldable pub output_view : List ℕ → ℕ → List ℕ
    output_view b i = elim (output_throws b i) [ none ↦ [] | some o ↦ o ]
