-- ===== src/Tests/Spending.antt =====
-- A transaction that redeems an output at a concrete input, with the parameters of the tests of the machine.
use gigamonkey.Base.{◌↔◌, ℕ, ◌≡◌, refl, [], ◌∷◌, List, replicate, some, none, true, false}
use gigamonkey.Base.Int.{pos, ltb_ℤ}
use gigamonkey.Ledger
use gigamonkey.Ledger.{Edge, Vertex, vertex_valid, incoming_edges, spent}
use gigamonkey.Ledger.Valid.{Redeems, vertex_valid-Redeems}
use gigamonkey.Script.Document.{Outpoint, Output}
use gigamonkey.Tests.{integers}
use gigamonkey.Tests.Stacks.{any_signature, no_hash}
use gigamonkey.Timechain.Transaction.{transaction_valid, sent, sum_values}

abbrev coin : Outpoint
coin = record { digest = replicate 32 1; index = 0 }

abbrev spending : Vertex
spending = record {
  transaction = record {
    version = 1;
    inputs = record { reference = coin; script = 0x51 ∷ []; sequence = 0 } ∷ [];
    outputs = record { value = pos 600; script = 0x51 ∷ [] } ∷ [];
    locktime = 0;
  };
  previous = (coin, record { value = pos 700; script = 0x51 ∷ [] }) ∷ [];
}

-- a vertex that is valid
spending_valid : vertex_valid none integers no_hash any_signature 20 0 spending ≡ some true
unfolding vertex_valid transaction_valid gigamonkey.Timechain.Transaction.all_valid
    gigamonkey.Timechain.Transaction.input_valid gigamonkey.Timechain.Transaction.is_program
    gigamonkey.Script.Instruction.Program.decompile gigamonkey.Script.Instruction.read
    gigamonkey.Script.Instruction.verify gigamonkey.Script.Instruction.Program.nest
    gigamonkey.Timechain.Transaction.output_valid Ledger.contains_all Ledger.contains
    Ledger.find_output Ledger.same_outpoint gigamonkey.Script.Counter.same_bytes incoming_edges
    Ledger.edges_of gigamonkey.Ledger.edges_valid Ledger.edge_valid spent Ledger.sum_spent
    gigamonkey.Timechain.Transaction.int64_of gigamonkey.Timechain.Transaction.word64
    gigamonkey.Base.Int.◌+ℤ◌ sent gigamonkey.Timechain.Transaction.sum_values Ledger.evaluate_all
    Ledger.evaluate_edge gigamonkey.Script.Machine.Evaluate.evaluate
    gigamonkey.Script.Machine.Evaluate.machine gigamonkey.Script.Machine.Evaluate.make
    gigamonkey.Script.Machine.Evaluate.full gigamonkey.Script.Machine.Evaluate.is_p2sh
    gigamonkey.Script.Instruction.Program.compile gigamonkey.Script.Instruction.Program.over_zeros
    gigamonkey.Script.Instruction.Program.write_program gigamonkey.Script.Instruction.write
    gigamonkey.Script.Instruction.Program.program_size gigamonkey.Script.Instruction.serialized_size
    gigamonkey.Script.Machine.Evaluate.check_scripts gigamonkey.Script.Machine.Evaluate.machine_run
    gigamonkey.Script.Machine.Step.run gigamonkey.Script.Machine.Step.result_of
    gigamonkey.Script.Machine.Step.step gigamonkey.Script.Machine.State.initial
    gigamonkey.Script.Counter.start gigamonkey.Script.Counter.read_instruction
    gigamonkey.Script.Machine.Step.guards gigamonkey.Script.Machine.Step.count_op
    gigamonkey.Script.Machine.State.all_true gigamonkey.Script.Machine.Step.is_opcode_disabled
    gigamonkey.Script.Machine.Step.execute gigamonkey.Script.Machine.Step.operation
    gigamonkey.Script.Machine.State.on_stacks gigamonkey.Script.Machine.Numeric.push_number
    gigamonkey.Script.Stack.push_back gigamonkey.Script.Stack.increase
    gigamonkey.Sv.Config.get_max_stack_memory_usage gigamonkey.Sv.ScriptNum.getvch
    gigamonkey.Sv.IntSerialization.serialize gigamonkey.Sv.IntSerialization.abs
    gigamonkey.Base.Int.◌-ℤ◌ gigamonkey.Sv.IntSerialization.serialize_loop
    gigamonkey.Base.Order.lt_wf native.Mathlib.Decide.dec_lt
    gigamonkey.Sv.IntSerialization.last_bytes gigamonkey.Script.Machine.Step.finish
    gigamonkey.Script.Counter.advance gigamonkey.Script.Machine.Step.is_valid_max_ops_per_script
    gigamonkey.Sv.Config.get_max_ops_per_script Ledger.is_success
spending_valid = refl

vertex_valid-Redeems_example :
    (vertex_valid none integers no_hash any_signature 20 0 spending ≡ some true) ↔ (
      (transaction_valid none spending.transaction ≡ some true)
      × ((os : List Output) × ((ltb_ℤ
                (sum_values (pos 0) os)
                (sum_values (pos 0) spending.transaction.outputs)
              ≡ false)
            × Redeems none integers no_hash any_signature 20 0 spending.transaction
                spending.previous 0 spending.transaction.inputs os)))
vertex_valid-Redeems_example =
    vertex_valid-Redeems none integers no_hash any_signature 20 0 spending
