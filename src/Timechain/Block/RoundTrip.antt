-- ===== src/Timechain/Block/RoundTrip.antt =====
-- Timechain/Block.antt: blocks that fit their fields are read back as they were written.
use gigamonkey.Base.{
  ℕ, ◌^◌, ◌<◌, ◌≡◌, refl, ap, sym, ◌∙◌, List, [], ◌++◌, append_assoc, some, length, All,
}
use gigamonkey.P2p.VarInt.{Read, write_sequence}
use gigamonkey.P2p.VarInt.RoundTrip.{write_sequence-append, read_sequence-fitting}
use gigamonkey.Timechain.Block.{Block, read_block, write_block, block_of_bytes}
use gigamonkey.Timechain.Header.{write_header}
use gigamonkey.Timechain.Header.RoundTrip.{FitsHeader, read_header-write_header}
use gigamonkey.Timechain.Transaction.{Transaction, write_transaction, read_transaction}
use gigamonkey.Timechain.Transaction.RoundTrip.{
  FitsTransaction, read_transaction-write_transaction, write_transaction-append,
}

unfoldable pub FitsBlock : Block → Type 0
FitsBlock b =
    FitsHeader b.header × (All FitsTransaction b.transactions × (length b.transactions < 2 ^ 64))

module _ (past_end : Read ℕ) where
  pub transaction-append :
      (w : List ℕ) (t : Transaction) → write_transaction w t ≡ w ++ write_transaction [] t
  transaction-append w t =
      write_transaction-append past_end w t
      ∙ ap (λ x. w ++ x) (sym (write_transaction-append past_end [] t))

  pub transactions-append :
      (w : List ℕ) (l : List Transaction)
      → write_sequence write_transaction w l ≡ w ++ write_sequence write_transaction [] l
  transactions-append =
      write_sequence-append past_end write_transaction (read_transaction past_end)
        (write_transaction []) FitsTransaction transaction-append
        (read_transaction-write_transaction past_end)

  read_block-write_block :
      (b : Block) (rest : List ℕ)
      → FitsBlock b
      → read_block past_end (write_block [] b ++ rest) ≡ some (b, rest)
  unfolding read_block write_block FitsBlock
  read_block-write_block b rest (header, (transactions, few)) =
      rw
        (
          transactions-append (write_header [] b.header) b.transactions,
          append_assoc,
          read_header-write_header past_end b.header
              (write_sequence write_transaction [] b.transactions ++ rest) header,
          read_sequence-fitting past_end write_transaction (read_transaction past_end)
              (write_transaction []) FitsTransaction transaction-append
              (read_transaction-write_transaction past_end) b.transactions rest transactions few,
        )
        refl

  -- A block that fits its fields is the block of its bytes, also where others follow.
  pub block_of_bytes-write_block :
      (b : Block) (rest : List ℕ)
      → FitsBlock b
      → block_of_bytes past_end (write_block [] b ++ rest) ≡ b
  unfolding block_of_bytes
  block_of_bytes-write_block b rest fits =
      rw (read_block-write_block b rest fits, block_of_bytes) refl
