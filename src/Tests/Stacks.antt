-- ===== src/Tests/Stacks.antt =====
-- The theorems on the machine and its stacks at concrete inputs.
use gigamonkey.Base.{◌^◌, ◌≡◌, refl, [], ◌∷◌, true, false, arith, none}
use gigamonkey.Script.Action.{final}
use gigamonkey.Script.Counter.{start, read_instruction, instruction_size}
use gigamonkey.Script.Document.{Signatures}
use gigamonkey.Script.Machine.{Rules}
use gigamonkey.Script.Machine.Crypto.{Hashes}
use gigamonkey.Script.Machine.StackOps.{Arrangement, arrange}
use gigamonkey.Script.Machine.StackOps.Counted.{arrange-WellCounted}
use gigamonkey.Script.Machine.State.{State, initial, all_true}
use gigamonkey.Script.Machine.State.Frame.{frame}
use gigamonkey.Script.Counter.Walk.{start-IsAt}
use gigamonkey.Script.Machine.Step.{run, step}
use gigamonkey.Script.Machine.Step.Advance.{Stepped, step-Stepped}
use gigamonkey.Script.Machine.Step.Ends.{EndsOrSticks, run-ends}
use gigamonkey.Script.Machine.Step.Skipped.{run-skipped}
use gigamonkey.Script.Stack.{Bytes, Stacks}
use gigamonkey.Script.Stack.Memory.{WellCounted, memory}
use gigamonkey.Tests.{integers}

abbrev five : Bytes
five = 5 ∷ []

abbrev three_elements : Stacks
three_elements = record {
  combined_size = 131;
  max_size = 1000;
  main = five ∷ five ∷ five ∷ [];
  alt = [];
}

abbrev two_elements : Stacks
two_elements = record { combined_size = 66; max_size = 1000; main = five ∷ five ∷ []; alt = [] }

two_elements-WellCounted : WellCounted two_elements
unfolding memory
two_elements-WellCounted = record { counted = refl; within = omega arith; limited = omega arith }

abbrev genesis_rules : Rules
genesis_rules = record {
  utxo_after_genesis = true;
  require_minimal = true;
  max_script_num_length = 750000;
}

arrange-WellCounted_example :
    WellCounted (final (arrange integers genesis_rules Arrangement.op_swap two_elements))
arrange-WellCounted_example =
    arrange-WellCounted integers genesis_rules Arrangement.op_swap two_elements
      two_elements-WellCounted

abbrev pub any_signature : Signatures
any_signature = record {
  compressed = λ p. true;
  valid_pubkey = λ p. true;
  normalized = λ s. true;
  minimal = λ s. true;
  verifies = λ p d s. true;
  signature_hash = λ d n. [];
}

abbrev pub no_hash : Hashes
no_hash = record { ripemd160 = λ v. v; sha1 = λ v. v; sha256 = λ v. v }

-- The flags are those after genesis, and the script pushes 1 in a branch that is not taken.
abbrev skipping : State
skipping = record (initial (2 ^ 19) true none (0x51 ∷ [])) { exec = false ∷ [] }

run-skipped_example : run integers no_hash any_signature 100 skipping ≡ none
unfolding initial start read_instruction instruction_size all_true
run-skipped_example =
    run-skipped integers no_hash any_signature 100 skipping 0x51 [] refl (omega arith) refl refl

-- the script that adds 1 and 2
abbrev adding : State
adding = initial (2 ^ 19) true none (0x51 ∷ 0x52 ∷ 0x93 ∷ [])

step-Stepped_example : Stepped (frame adding) (step integers no_hash any_signature adding)
step-Stepped_example = step-Stepped integers no_hash any_signature adding

run-ends_example : EndsOrSticks integers no_hash any_signature 4 adding
unfolding initial start
run-ends_example =
    run-ends integers no_hash any_signature 4 adding (start-IsAt (0x51 ∷ 0x52 ∷ 0x93 ∷ []))
      (omega arith)
