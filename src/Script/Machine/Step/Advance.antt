-- ===== src/Script/Machine/Step/Advance.antt =====
-- src/gigamonkey/script/machine.cpp: what a step leaves alone, and how it moves the counter.
use gigamonkey.Base.{
  ℕ, Bool, true, false, List, [], ◌∷◌, ◌≡◌, ltb, ◌&&◌, ◌+◌, length, refl, ap, not, if◌then◌else◌,
}
use gigamonkey.Script.Action.{
  Outcome, done, returns, throws, Ensures, Any, on_done, on_return, on_throw, fail, ◌>>◌,
}
use gigamonkey.Script.Counter.{advance}
use gigamonkey.Script.Document.{Signatures}
use gigamonkey.Script.Error.{ScriptError, succeeds}
use gigamonkey.Script.Machine.Crypto.{Hashes}
use gigamonkey.Script.Machine.State.{State, StateOp, after_genesis}
use gigamonkey.Script.Machine.State.Frame.{Frame, HasFrame, frame}
use gigamonkey.Script.Machine.Step.{execute, guards, finish, step_at, step}
use gigamonkey.Script.Stack.{size}
use gigamonkey.Sv.BigNum.{BigNum}
use gigamonkey.Base.{◌!=◌}
use gigamonkey.Script.Flags.{has, script_verify_cleanstack}
use gigamonkey.Script.Machine.Step.{max_stack_elements_before_genesis}
use gigamonkey.Script.Machine.Step.Framed.{guards-KeepsFrame, execute-KeepsFrame}
use gigamonkey.Script.Stack.{size}

-- the frame after a step that goes on
abbrev pub moved : Frame → Frame
moved f = record f { counter = advance f.counter }

-- Where a step goes on, the counter has moved and the rest of the frame is as it was. Where the step
-- ends the script, all of it is.
unfoldable pub Stepped : Frame → Outcome State (Unit {0}) → Type 0
Stepped f (done a y) = frame y ≡ moved f
Stepped f (returns r y) = frame y ≡ f
Stepped f (throws e y) = frame y ≡ f

bind-Stepped :
    (f : Frame) (o : Outcome State (Unit {0})) (k : StateOp (Unit {0}))
    → Ensures (HasFrame f) Any o
    → ((y : State) → frame y ≡ f → Stepped f (k y))
    → Stepped f (elim o [ done a y ↦ k y | returns r y ↦ returns r y | throws e y ↦ throws e y ])
unfolding Stepped
bind-Stepped f (done a y) k (on_done p i) h = h y i
bind-Stepped f (returns r y) k (on_return i) h = i
bind-Stepped f (throws e y) k (on_throw i) h = i

if-Stepped :
    (c : Bool) (f : Frame) (m k : Outcome State (Unit {0}))
    → Stepped f m
    → Stepped f k
    → Stepped f (if c then m else k)
if-Stepped true f m k h g = h
if-Stepped false f m k h g = g

module _ (b : BigNum) (h : Hashes) (g : Signatures) where
  finish-Stepped : (f : Frame) (y : State) → frame y ≡ f → Stepped f (finish b h g y)
  unfolding finish Stepped
  finish-Stepped f y i =
      if-Stepped
        (not (after_genesis y)
          && ltb max_stack_elements_before_genesis (size y.stacks + length y.stacks.alt))
        f (fail ScriptError.stack_size y) (done tt (record y { counter = advance y.counter })) i
        (ap moved i)

  step_at-Stepped : (bytes : List ℕ) (x : State) → Stepped (frame x) (step_at b h g bytes x)
  unfolding step_at Stepped
  step_at-Stepped [] x =
      if-Stepped (has x.flags script_verify_cleanstack && size x.stacks != 1) (frame x)
        (fail ScriptError.clean_stack x) (returns (succeeds true) x) refl refl
  step_at-Stepped (op ∷ rest) x =
      bind-Stepped (frame x) (guards b h g op x) (execute b h g op >> finish b h g)
        (guards-KeepsFrame b h g op (frame x) x refl)
        (λ y i.
          bind-Stepped (frame x) (execute b h g op y) (finish b h g)
            (execute-KeepsFrame b h g op (frame x) y i) (finish-Stepped (frame x)))

  -- One step changes nothing of the flags, the configuration, the document and the script, whatever
  -- the op code. Where it goes on, the counter has moved by the instruction that it was at, and where
  -- it ends the script, by a result or by an exception, the counter has not moved.
  pub step-Stepped : (x : State) → Stepped (frame x) (step b h g x)
  unfolding step
  step-Stepped x = step_at-Stepped x.counter.next x
