-- ===== src/Timechain/Incomplete.antt =====
-- include/gigamonkey/incomplete.hpp and src/gigamonkey/incomplete.cpp: transactions without their input
-- scripts, which are the transactions of Script/Document.antt.
pub mod Completed
use gigamonkey.Base.{
  ℕ, List, [], ◌∷◌, Option, none, some, Bool, true, false, ◌==◌, ◌!=◌, if◌then◌else◌, length,
}
use gigamonkey.P2p.VarInt.{Read, ◌>>=◌}
use gigamonkey.Script.Document
use gigamonkey.Timechain.Transaction.{
  Input, Transaction, transaction_bytes, transaction_of_bytes, transaction_valid,
}
use mathlib.Core.List.{map}

-- `input (const Bitcoin::input &)` and `input::complete`
unfoldable pub incomplete_input : Input → Document.Input
incomplete_input i = record { reference = i.reference; sequence = i.sequence }

unfoldable pub complete_input : Document.Input → List ℕ → Input
complete_input i script = record { reference = i.reference; script = script; sequence = i.sequence }

-- `transaction (const Bitcoin::transaction &)`
unfoldable pub incomplete : Transaction → Document.Transaction
incomplete t = record {
  version = t.version;
  inputs = map incomplete_input t.inputs;
  outputs = t.outputs;
  locktime = t.locktime;
}

-- `data::map_thread`, of lists that are as long as each other
unfoldable pub complete_inputs : List Document.Input → List (List ℕ) → List Input
complete_inputs [] scripts = []
complete_inputs (i ∷ is) [] = []
complete_inputs (i ∷ is) (x ∷ scripts) = complete_input i x ∷ complete_inputs is scripts

-- `transaction::complete`, which throws where there is not a script for each input
unfoldable pub complete : Document.Transaction → List (List ℕ) → Option Transaction
complete t scripts =
    if length scripts != length t.inputs
    then none
    else some (record {
      version = t.version;
      inputs = complete_inputs t.inputs scripts;
      outputs = t.outputs;
      locktime = t.locktime;
    })

-- the conversion to bytes, with empty scripts
unfoldable pub incomplete_bytes : Document.Transaction → List ℕ
incomplete_bytes t = transaction_bytes (record {
  version = t.version;
  inputs = map (λ i. complete_input i []) t.inputs;
  outputs = t.outputs;
  locktime = t.locktime;
})

-- `transaction (bytes_view)`, which throws where the transaction is not valid
unfoldable pub incomplete_of_bytes : Read ℕ → List ℕ → Option Document.Transaction
incomplete_of_bytes past_end b = do
  valid ← transaction_valid past_end (transaction_of_bytes past_end b)
  if valid then some (incomplete (transaction_of_bytes past_end b)) else none
