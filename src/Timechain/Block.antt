-- ===== src/Timechain/Block.antt =====
-- include/gigamonkey/timechain.hpp and src/gigamonkey/timechain.cpp: blocks, the ids of transactions and
-- the merkle root of a block.
pub mod RoundTrip
use gigamonkey.Base.{ℕ, ◌+◌, List, [], ◌∷◌, Option, none, some, Bool, true, false}
use gigamonkey.Base.{if◌then◌else◌, length}
use mathlib.Core.List.{map}
use gigamonkey.Merkle.Proof.{Digest, hash256}
use gigamonkey.P2p.VarInt.{Read, ◌>>=◌, size, sizes, read_sequence, write_sequence}
use gigamonkey.Timechain.Header.{Header, no_header, write_header, read_header, is_valid}
use gigamonkey.Timechain.Transaction.{
  Transaction, write_transaction, transaction_bytes, read_transaction, transaction_size, all_valid,
  transaction_valid,
}
use gigamonkey.Merkle.Rounds.{root}

pub record Block : Type 0 where
  pub header : Header
  pub transactions : List Transaction

unfoldable pub no_block : Block
no_block = record { header = no_header; transactions = [] }

-- `w << b`
unfoldable pub write_block : List ℕ → Block → List ℕ
write_block w b = write_sequence write_transaction (write_header w b.header) b.transactions

-- `block::serialized_size`
unfoldable pub block_size : Block → ℕ
block_size b = 80 + size (length b.transactions) + sizes transaction_size b.transactions

module _ (past_end : Read ℕ) where
  -- `r >> b`
  unfoldable pub read_block : List ℕ → Read Block
  read_block r = do
    (h, r1) ← read_header past_end r
    (ts, r2) ← read_sequence past_end (read_transaction past_end) r1
    some (record { header = h; transactions = ts }, r2)

  -- `block (bytes_view)`
  unfoldable pub block_of_bytes : List ℕ → Block
  block_of_bytes b = elim (read_block b) [ none ↦ no_block | some (x, r) ↦ x ]

  -- `block::valid`, which throws where a script cannot be decompiled
  unfoldable pub block_valid : (List ℕ → List ℕ) → Block → Option Bool
  block_valid sha2_256 b =
      if is_valid sha2_256 b.header
      then all_valid (transaction_valid past_end) b.transactions
      else some false

module _ (sha2_256 : List ℕ → List ℕ) where
  -- `id`
  unfoldable pub id : Transaction → Digest
  id t = hash256 sha2_256 (transaction_bytes t)

  -- `merkle_root` of transactions
  unfoldable pub merkle_root : List Transaction → Option Digest
  merkle_root ts = root sha2_256 (map id ts)
