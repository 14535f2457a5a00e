-- ===== src/Timechain/Views/Slices.antt =====
-- Timechain/Views.antt: the transactions that are seen in a serialized block are those of the block.
use gigamonkey.Base.{
  ℕ, ◌-◌, ◌≡◌, refl, ap, ◌∙◌, arith, List, [], ◌∷◌, ◌++◌, append_assoc, some, take, length,
  length-append, take-length-append, All,
}
use mathlib.Core.List.{map}
use gigamonkey.Merkle.Proof.{hash256}
use gigamonkey.Merkle.Rounds.{root}
use gigamonkey.P2p.VarInt.{Read, write, write_sequence}
use gigamonkey.P2p.VarInt.RoundTrip.{read-write, write_sequence-joined, joined}
use gigamonkey.Timechain.Block.{Block, write_block, id, merkle_root}
use gigamonkey.Timechain.Block.RoundTrip.{FitsBlock, transaction-append, transactions-append}
use gigamonkey.Timechain.Header.{write_header}
use gigamonkey.Timechain.Header.RoundTrip.{read_header-write_header}
use gigamonkey.Timechain.Transaction.{
  Transaction, write_transaction, read_transaction, transaction_bytes,
}
use gigamonkey.Timechain.Transaction.RoundTrip.{FitsTransaction, read_transaction-write_transaction}
use gigamonkey.Timechain.Views.{slices, transactions, merkle_root_of_bytes}

module _ (past_end : Read ℕ) where
  slice_of : (x rest : List ℕ) → take (length (x ++ rest) - length rest) (x ++ rest) ≡ x
  slice_of x rest =
      let size : length (x ++ rest) - length rest ≡ length x =
        omega (arith, length-append x rest) in
      ap (λ n. take n (x ++ rest)) size ∙ take-length-append x rest

  slices-joined :
      (ts : List Transaction) (rest : List ℕ)
      → All FitsTransaction ts
      → slices past_end (length ts) (joined (write_transaction []) ts ++ rest)
        ≡ some (map transaction_bytes ts)
  unfolding slices transaction_bytes
  slices-joined [] rest fit = refl
  slices-joined (t ∷ ts) rest (fits, fit) =
      rw
        (
          append_assoc,
          read_transaction-write_transaction past_end t (joined (write_transaction []) ts ++ rest)
              fits,
          slice_of (write_transaction [] t) (joined (write_transaction []) ts ++ rest),
          slices-joined ts rest fit,
        )
        refl

  sequence-joined :
      (l : List Transaction)
      → write_sequence write_transaction [] l
        ≡ write [] (length l) ++ joined (write_transaction []) l
  sequence-joined =
      write_sequence-joined past_end write_transaction (read_transaction past_end)
        (write_transaction []) FitsTransaction (transaction-append past_end)
        (read_transaction-write_transaction past_end)

  map-map :
      (f : List ℕ → List ℕ) (l : List Transaction)
      → map f (map transaction_bytes l) ≡ map (λ t. f (transaction_bytes t)) l
  map-map f [] = refl
  map-map f (t ∷ l) = ap (λ x. f (transaction_bytes t) ∷ x) (map-map f l)

  -- What is seen of a written block are the bytes of its transactions.
  pub transactions-write_block :
      (b : Block) (rest : List ℕ)
      → FitsBlock b
      → transactions past_end (write_block [] b ++ rest)
        ≡ some (map transaction_bytes b.transactions)
  unfolding transactions write_block FitsBlock
  transactions-write_block b rest (header, (fit, few)) =
      rw
        (
          transactions-append past_end (write_header [] b.header) b.transactions,
          append_assoc,
          read_header-write_header past_end b.header
              (write_sequence write_transaction [] b.transactions ++ rest) header,
          sequence-joined b.transactions,
          append_assoc,
          read-write past_end (length b.transactions)
              (joined (write_transaction []) b.transactions ++ rest) few,
          slices-joined b.transactions rest fit,
        )
        refl

  -- The merkle root of a written block is that of its transactions.
  pub merkle_root_of_bytes-write_block :
      (sha2_256 : List ℕ → List ℕ) (b : Block) (rest : List ℕ)
      → FitsBlock b
      → merkle_root_of_bytes past_end sha2_256 (write_block [] b ++ rest)
        ≡ merkle_root sha2_256 b.transactions
  unfolding merkle_root_of_bytes merkle_root id
  merkle_root_of_bytes-write_block sha2_256 b rest fits =
      rw (transactions-write_block b rest fits)
        (ap (root sha2_256) (map-map (hash256 sha2_256) b.transactions))
