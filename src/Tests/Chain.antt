-- ===== src/Tests/Chain.antt =====
-- Transactions, headers, blocks and what signatures sign at concrete inputs. The hash gives 32 zeros.
use gigamonkey.Base.{
  false, ℕ, zero, suc, ◌<◌, ◌≡◌, refl, ◌∷◌, [], ◌++◌, none, some, arith, List, All, length,
  replicate,
}
use gigamonkey.Base.Bytes.{to_little}
use gigamonkey.Base.Int.{pos}
use gigamonkey.P2p.VarInt.{◌>>=◌}
use gigamonkey.Script.Document
use gigamonkey.Script.Document.{Outpoint, Output, SighashDocument}
use gigamonkey.Script.Instruction
use gigamonkey.Script.Instruction.Program
use gigamonkey.Sighash
use gigamonkey.Sighash.Unsigned.{
  with_outputs, with_inputs, write_bitcoin_cash-with_outputs, write_bitcoin_cash-with_inputs,
}
use gigamonkey.Sighash.Injective.{FitsDocument, preimage-injective}
use gigamonkey.Sighash.Kept.{matching_output}
use gigamonkey.Sighash.Original.{read_transaction-write_original}
use gigamonkey.Timechain.Incomplete.{complete_input}
use gigamonkey.Timechain.Block.{Block, write_block, block_of_bytes, merkle_root}
use gigamonkey.Timechain.Block.RoundTrip.{FitsBlock, block_of_bytes-write_block}
use gigamonkey.Timechain.Header.{
  Header, header_bytes, header_of_slice, slice_valid, is_valid, slice_hash, header_hash,
}
use gigamonkey.Timechain.Header.RoundTrip.{
  FitsHeader, header_bytes-header_of_slice, slice_valid-is_valid,
}
use gigamonkey.Timechain.Transaction.{
  Input, Transaction, transaction_bytes, transaction_of_bytes, transaction_size, read_transaction,
}
use gigamonkey.Timechain.Transaction.RoundTrip.{
  IsInt64, FitsTransaction, transaction_of_bytes-transaction_bytes,
}
use gigamonkey.Timechain.Transaction.Size.{length-transaction_bytes}
use gigamonkey.Timechain.Views.{merkle_root_of_bytes, output_view}
use gigamonkey.Timechain.Views.Slices.{merkle_root_of_bytes-write_block}
use gigamonkey.Timechain.Views.Outputs.{output_view_past_inputs}

abbrev zeros : List ℕ → List ℕ
zeros m = replicate 32 0

abbrev coin : Outpoint
coin = record { digest = replicate 32 7; index = 5 }

abbrev spend : Input
spend = record { reference = coin; script = 0x51 ∷ []; sequence = 0xffff_ffff }

abbrev thousand : Output
thousand = record { value = pos 1000; script = 0x51 ∷ [] }

abbrev payment : Transaction
payment = record {
  version = 1;
  inputs = spend ∷ [];
  outputs = thousand ∷ thousand ∷ [];
  locktime = 0;
}

payment-FitsTransaction : FitsTransaction payment
unfolding FitsTransaction IsInt64
payment-FitsTransaction = (
  omega arith,
  ((((refl, omega arith), omega arith, omega arith), tt), omega arith),
  (((omega arith, omega arith), ((omega arith, omega arith), tt)), omega arith),
  omega arith,
)

transaction_of_bytes-transaction_bytes_example :
    transaction_of_bytes none (transaction_bytes payment ++ (9 ∷ [])) ≡ payment
transaction_of_bytes-transaction_bytes_example =
    transaction_of_bytes-transaction_bytes none payment (9 ∷ []) payment-FitsTransaction

length-transaction_bytes_example : length (transaction_bytes payment) ≡ transaction_size payment
length-transaction_bytes_example = length-transaction_bytes payment (refl, tt)

output_view_past_inputs_example :
    output_view none (λ n r. some r) (transaction_bytes payment) 1 ≡ []
output_view_past_inputs_example =
    output_view_past_inputs none (λ n r. some r) payment 1 payment-FitsTransaction (omega arith)

abbrev genesis : Header
genesis = record {
  version = 1;
  previous = replicate 32 0;
  merkle_root = replicate 32 1;
  timestamp = 1231006505;
  target = 0x1d00ffff;
  nonce = 2083236893;
}

genesis-FitsHeader : FitsHeader genesis
unfolding FitsHeader
genesis-FitsHeader = (omega arith, refl, refl, omega arith, omega arith, omega arith)

abbrev eighty : List ℕ
eighty = replicate 80 3

threes-IsByte : (k : ℕ) → All (λ b. b < 256) (replicate k 3)
threes-IsByte zero = tt
threes-IsByte (suc k) = (omega arith, threes-IsByte k)

eighty-IsByte : All (λ b. b < 256) eighty
eighty-IsByte = threes-IsByte 80

header_bytes-header_of_slice_example : header_bytes (header_of_slice eighty) ≡ eighty
header_bytes-header_of_slice_example = header_bytes-header_of_slice eighty eighty-IsByte refl

slice_valid-is_valid_example :
    (slice_valid zeros eighty ≡ is_valid zeros (header_of_slice eighty))
    × (slice_hash zeros eighty ≡ header_hash zeros (header_of_slice eighty))
slice_valid-is_valid_example = slice_valid-is_valid zeros eighty eighty-IsByte refl

abbrev first_block : Block
first_block = record { header = genesis; transactions = payment ∷ payment ∷ [] }

first_block-FitsBlock : FitsBlock first_block
unfolding FitsBlock
first_block-FitsBlock =
    (genesis-FitsHeader, ((payment-FitsTransaction, (payment-FitsTransaction, tt)), omega arith))

block_of_bytes-write_block_example :
    block_of_bytes none (write_block [] first_block ++ []) ≡ first_block
block_of_bytes-write_block_example =
    block_of_bytes-write_block none first_block [] first_block-FitsBlock

merkle_root_of_bytes-write_block_example :
    merkle_root_of_bytes none zeros (write_block [] first_block ++ [])
    ≡ merkle_root zeros first_block.transactions
merkle_root_of_bytes-write_block_example =
    merkle_root_of_bytes-write_block none zeros first_block [] first_block-FitsBlock

abbrev unsigned : Document.Input
unsigned = record { reference = coin; sequence = 0xffff_ffff }

abbrev other_input : Document.Input
other_input = record { reference = record { digest = replicate 32 9; index = 0 }; sequence = 3 }

abbrev document : SighashDocument
document = record {
  redeemed = pos 5000;
  script_code = 0x51 ∷ [];
  signed_transaction = record {
    version = 1;
    inputs = unsigned ∷ [];
    outputs = thousand ∷ [];
    locktime = 0;
  };
  index_of_input = 0;
}

document-FitsDocument : FitsDocument document 0x41 unsigned (replicate 32 0)
unfolding FitsDocument IsInt64
document-FitsDocument = (
  omega arith,
  (refl, omega arith),
  omega arith,
  omega arith,
  omega arith,
  refl,
  omega arith,
  omega arith,
)

write_bitcoin_cash-with_outputs_example :
    Sighash.write_bitcoin_cash zeros none [] (with_outputs document []) 0x42
    ≡ Sighash.write_bitcoin_cash zeros none [] document 0x42
unfolding Sighash.base
write_bitcoin_cash-with_outputs_example =
    write_bitcoin_cash-with_outputs zeros none [] document [] 0x42 (omega arith) refl

write_bitcoin_cash-with_inputs_example :
    Sighash.write_bitcoin_cash zeros none []
      (with_inputs document (other_input ∷ unsigned ∷ []) 1)
      0xc1
    ≡ Sighash.write_bitcoin_cash zeros none [] document 0xc1
unfolding Sighash.base Sighash.is_anyone_can_pay
write_bitcoin_cash-with_inputs_example =
    write_bitcoin_cash-with_inputs zeros none document (other_input ∷ unsigned ∷ []) 1 refl [] 0xc1
      (omega arith) refl refl

-- another document, which the hash does not tell from this one
abbrev without_outputs : SighashDocument
without_outputs = record {
  redeemed = pos 5000;
  script_code = 0x51 ∷ [];
  signed_transaction = record { version = 1; inputs = unsigned ∷ []; outputs = []; locktime = 0 };
  index_of_input = 0;
}

without_outputs-FitsDocument : FitsDocument without_outputs 0x41 unsigned (replicate 32 0)
unfolding FitsDocument IsInt64
without_outputs-FitsDocument = (
  omega arith,
  (refl, omega arith),
  omega arith,
  omega arith,
  omega arith,
  refl,
  omega arith,
  omega arith,
)

abbrev signed_directive : ℕ
signed_directive = 0x41

same_bytes_signed :
    Sighash.preimage zeros document signed_directive unsigned (replicate 32 0)
    ≡ Sighash.preimage zeros without_outputs signed_directive unsigned (replicate 32 0)
unfolding Sighash.preimage Sighash.prevouts_digest Sighash.sequence_digest Sighash.hash_prevouts
    Sighash.hash_sequence
same_bytes_signed = refl

preimage-injective_example :
    (document.signed_transaction.version ≡ without_outputs.signed_transaction.version)
    × (Sighash.prevouts_digest zeros document 0x41
        ≡ Sighash.prevouts_digest zeros without_outputs 0x41)
    × (Sighash.sequence_digest zeros document 0x41
        ≡ Sighash.sequence_digest zeros without_outputs 0x41)
    × (coin.digest ≡ coin.digest)
    × (coin.index ≡ coin.index)
    × (document.script_code ≡ without_outputs.script_code)
    × (document.redeemed ≡ without_outputs.redeemed)
    × (unsigned.sequence ≡ unsigned.sequence)
    × (zeros [] ≡ zeros [])
    × (document.signed_transaction.locktime ≡ without_outputs.signed_transaction.locktime)
    × (signed_directive ≡ signed_directive)
preimage-injective_example =
    preimage-injective zeros (λ m. refl) document without_outputs signed_directive signed_directive
      unsigned unsigned (replicate 32 0) (replicate 32 0) document-FitsDocument
      without_outputs-FitsDocument same_bytes_signed

-- the second of two inputs, whose script code has a code separator
abbrev two_inputs : SighashDocument
two_inputs = record {
  redeemed = pos 5000;
  script_code = 0xab ∷ 0x51 ∷ [];
  signed_transaction = record {
    version = 1;
    inputs = other_input ∷ unsigned ∷ [];
    outputs = thousand ∷ thousand ∷ [];
    locktime = 0;
  };
  index_of_input = 1;
}

-- the transaction that is signed, with the code in the place of the script
abbrev signed : Transaction
signed = record {
  version = 1;
  inputs =
      record {
        reference = record { digest = replicate 32 9; index = 0 };
        script = [];
        sequence = 0;
      }
      ∷ record { reference = unsigned.reference; script = 0x51 ∷ []; sequence = unsigned.sequence }
      ∷ [];
  outputs = thousand ∷ [];
  locktime = 0;
}

signed-FitsTransaction : FitsTransaction signed
unfolding FitsTransaction IsInt64
signed-FitsTransaction = ground arith

separators_removed : Sighash.remove_code_separators none (0xab ∷ 0x51 ∷ []) ≡ some (0x51 ∷ [])
unfolding Sighash.remove_code_separators Sighash.without_separators Program.decompile
    Instruction.read Instruction.verify Program.nest Program.compile Program.over_zeros
    Program.write_program Instruction.write Program.program_size Instruction.serialized_size
separators_removed = refl

read_transaction-write_original_example :
    (Sighash.write_original none [] two_inputs 3 >>= read_transaction none)
    ≡ some (signed, to_little 4 3)
unfolding complete_input
read_transaction-write_original_example =
    read_transaction-write_original none matching_output false two_inputs (other_input ∷ [])
      unsigned [] (0x51 ∷ []) (thousand ∷ []) refl refl separators_removed refl
      signed-FitsTransaction
