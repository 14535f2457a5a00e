-- ===== src/Script/Machine/State/Frame.antt =====
-- include/gigamonkey/script/machine.hpp: the part of the state that the operations leave alone.
use gigamonkey.Base.{ℕ, Bool, true, false, List, Option, none, some, ◌≡◌, if◌then◌else◌}
use gigamonkey.Script.Action.{
  Outcome, done, returns, throws, Ensures, Any, Keeps, Keeps-bind, on_done, on_return, on_throw,
  ◌>>=◌,
}
use gigamonkey.Script.Counter.{ProgramCounter}
use gigamonkey.Script.Document.{RedemptionDocument}
use gigamonkey.Script.Machine.State.{State, StateOp, on_stacks}
use gigamonkey.Script.Stack.{Stacks, StackOp}
use gigamonkey.Sv.Config.{ScriptConfig}

-- what only the end of a step changes, which is the counter, and what nothing changes
pub record Frame : Type 0 where
  pub flags : ℕ
  pub consensus : Bool
  pub config : ScriptConfig
  pub document : Option RedemptionDocument
  pub script : List ℕ
  pub counter : ProgramCounter

abbrev pub frame : State → Frame
frame x = record {
  flags = x.flags;
  consensus = x.consensus;
  config = x.config;
  document = x.document;
  script = x.script;
  counter = x.counter;
}

abbrev pub HasFrame : Frame → State → Type 0
HasFrame f x = frame x ≡ f

-- An operation that keeps the frame.
abbrev pub KeepsFrame : {A : Type 0} → StateOp A → Type 0
KeepsFrame m = (f : Frame) → Keeps (HasFrame f) Any m

restored-Ensures :
    {A : Type 0} (f : Frame) (x : State) (o : Outcome Stacks A)
    → frame x ≡ f
    → Ensures (HasFrame f) Any (elim o [
      | done a s ↦ done a (record x { stacks = s })
      | returns r s ↦ returns r (record x { stacks = s })
      | throws e s ↦ throws e (record x { stacks = s })
    ])
restored-Ensures f x (done a s) i = on_done tt i
restored-Ensures f x (returns r s) i = on_return i
restored-Ensures f x (throws e s) i = on_throw i

pub on_stacks-KeepsFrame : {A : Type 0} (m : StackOp A) → KeepsFrame (on_stacks m)
unfolding on_stacks
on_stacks-KeepsFrame m f x i = restored-Ensures f x (m x.stacks) i

pub bind-KeepsFrame :
    {A B : Type 0} (m : StateOp A) (k : A → StateOp B)
    → KeepsFrame m
    → ((a : A) → KeepsFrame (k a))
    → KeepsFrame (m >>= k)
bind-KeepsFrame m k h g f = Keeps-bind (HasFrame f) Any Any m k (h f) (λ a _. g a f)

-- A test decides between two operations.
pub if-KeepsFrame :
    {A : Type 0} (c : Bool) (m k : StateOp A) (f : Frame) (x : State)
    → KeepsFrame m
    → KeepsFrame k
    → frame x ≡ f
    → Ensures (HasFrame f) Any (if c then m x else k x)
if-KeepsFrame true m k f x h g i = h f x i
if-KeepsFrame false m k f x h g i = g f x i

pub choice-KeepsFrame :
    {A : Type 0} (c : Bool) (m k : StateOp A)
    → KeepsFrame m
    → KeepsFrame k
    → KeepsFrame (if c then m else k)
choice-KeepsFrame true m k h g = h
choice-KeepsFrame false m k h g = g

-- An option decides between two operations.
pub option-KeepsFrame :
    {A B : Type 0} (o : Option A) (m : StateOp B) (k : A → StateOp B) (f : Frame) (x : State)
    → KeepsFrame m
    → ((a : A) → KeepsFrame (k a))
    → frame x ≡ f
    → Ensures (HasFrame f) Any (elim o [ none ↦ m x | some a ↦ k a x ])
option-KeepsFrame none m k f x h g i = h f x i
option-KeepsFrame (some a) m k f x h g i = g a f x i
