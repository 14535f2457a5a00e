-- ===== src/Script/Machine/State.antt =====
-- include/gigamonkey/script/machine.hpp: the state of the machine. Of `Exec` and `Else` the last
-- element is the head.
pub mod Frame
use gigamonkey.Base.{ℕ, Bool, true, List, [], ◌∷◌, Option, ◌&&◌}
use gigamonkey.Script.Action.{Action, done, returns, throws}
use gigamonkey.Script.Counter.{ProgramCounter, start}
use gigamonkey.Script.Document.{RedemptionDocument}
use gigamonkey.Script.Flags.{has, script_utxo_after_genesis, script_verify_minimaldata}
use gigamonkey.Script.Machine.{Rules}
use gigamonkey.Script.Stack.{Stacks, StackOp, empty_stacks}
use gigamonkey.Sv.Config.{
  ScriptConfig, default_config, get_max_script_num_length, get_max_stack_memory_usage,
}

-- `machine::state`
pub record State : Type 0 where
  pub flags : ℕ
  pub consensus : Bool
  pub config : ScriptConfig
  pub document : Option RedemptionDocument
  pub script : List ℕ
  pub counter : ProgramCounter
  pub stacks : Stacks
  pub exec : List Bool
  pub else_ : List Bool
  pub op_count : ℕ

abbrev pub StateOp : Type 0 → Type 0
StateOp = Action State

abbrev pub after_genesis : State → Bool
after_genesis x = has x.flags script_utxo_after_genesis

-- the constructor
unfoldable pub initial : ℕ → Bool → Option RedemptionDocument → List ℕ → State
initial flags consensus document script = record {
  flags = flags;
  consensus = consensus;
  config = default_config;
  document = document;
  script = script;
  counter = start script;
  stacks =
      empty_stacks
        (get_max_stack_memory_usage default_config (has flags script_utxo_after_genesis) consensus);
  exec = [];
  else_ = [];
  op_count = 0;
}

-- the locals of `step`
abbrev pub rules_of : State → Rules
rules_of x = record {
  utxo_after_genesis = after_genesis x;
  require_minimal = has x.flags script_verify_minimaldata;
  max_script_num_length = get_max_script_num_length x.config (after_genesis x) x.consensus;
}

-- An operation on the stacks of the state.
unfoldable pub on_stacks : {A : Type 0} → StackOp A → StateOp A
on_stacks m x = elim (m x.stacks) [
  | done a s ↦ done a (record x { stacks = s })
  | returns r s ↦ returns r (record x { stacks = s })
  | throws e s ↦ throws e (record x { stacks = s })
]

-- `!count (Exec.begin (), Exec.end (), false)`
unfoldable pub all_true : List Bool → Bool
all_true [] = true
all_true (b ∷ bs) = b && all_true bs
