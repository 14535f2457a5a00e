-- ===== src/Tests/Fees.antt =====
-- Designs of transactions at concrete inputs.
use gigamonkey.Base.{◌≡◌, ◌+◌, refl, [], ◌∷◌, length, replicate, get_elem?, some, arith}
use gigamonkey.Base.Int.{pos}
use gigamonkey.Fees.{
  DesignInput, TransactionDesign, expected_size, complete_design, documents, incomplete_of_design,
  incomplete_of_input,
}
use gigamonkey.Fees.Expected.{document_of, documents-get, expected_size-transaction_size}
use gigamonkey.P2p.VarInt.{size}
use gigamonkey.Script.Document.{Output}
use gigamonkey.Timechain.Incomplete.{complete, incomplete}
use gigamonkey.Timechain.Incomplete.Completed.{incomplete-complete}
use gigamonkey.Timechain.Transaction.{Transaction, transaction_size}
use mathlib.Core.List.{map}

abbrev coin : Output
coin = record { value = pos 700; script = 0x51 ∷ [] }

abbrev first_input : DesignInput
first_input = record {
  reference = record { digest = replicate 32 1; index = 0 };
  redeemed = coin;
  expected_script_size = 2;
  sequence = 0;
  input_script_so_far = [];
}

abbrev design : TransactionDesign
design = record { version = 1; inputs = first_input ∷ []; outputs = coin ∷ []; locktime = 0 }

incomplete-complete_example :
    (u : Transaction) × ((complete (incomplete_of_design design) ((7 ∷ []) ∷ []) ≡ some u)
      × ((map (λ i. i.script) u.inputs ≡ ((7 ∷ []) ∷ []))
          × (incomplete u ≡ incomplete_of_design design)))
unfolding incomplete_of_design
incomplete-complete_example = incomplete-complete (incomplete_of_design design) ((7 ∷ []) ∷ []) refl

documents-get_example :
    (get_elem? (documents design) 0
      ≡ some (document_of (incomplete_of_design design) 0 first_input))
    × (get_elem? (incomplete_of_design design).inputs 0 ≡ some (incomplete_of_input first_input))
documents-get_example = documents-get design 0 first_input (omega arith) refl

expected_size-transaction_size_example :
    (u : Transaction) × ((complete_design design ((7 ∷ 8 ∷ []) ∷ []) ≡ some u)
      × (transaction_size u + size (length design.inputs)
          ≡ expected_size design + size (length design.outputs)))
expected_size-transaction_size_example =
    expected_size-transaction_size design ((7 ∷ 8 ∷ []) ∷ []) (refl, tt)
