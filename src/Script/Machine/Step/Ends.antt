-- ===== src/Script/Machine/Step/Ends.antt =====
-- src/gigamonkey/script/machine.cpp: `run` comes to an end after as many steps as the script has bytes,
-- unless it stands where a step is no end and does not move.
use gigamonkey.Base.{
  ℕ, zero, suc, ◌+◌, ◌≤◌, ◌<◌, ◌≡◌, refl, sym, ap, ◌∙◌, List, [], ◌∷◌, true, false, Option, some,
  ◌⊎◌, ltb, inl, inr, arith, length, drop, ◌||◌, not, if◌then◌else◌,
}
use mathlib.Core.Path.{subst}
use gigamonkey.Base.{Bool-cases}
use gigamonkey.Script.Action.{Outcome, done, returns, throws, final}
use gigamonkey.Script.Counter.{advance, read_instruction, instruction_size}
use gigamonkey.Script.Counter.Walk.{IsAt, advance-IsAt}
use gigamonkey.Script.Document.{Signatures}
use gigamonkey.Script.Error.{EvalResult, Exception, fails}
use gigamonkey.Script.Instruction.{is_ok}
use gigamonkey.Script.Machine.Crypto.{Hashes}
use gigamonkey.Script.Machine.State.{State}
use gigamonkey.Script.Machine.State.Frame.{frame}
use gigamonkey.Script.Machine.Step.{step, step_at, run, result_of, caught}
use gigamonkey.Script.Machine.Step.Advance.{Stepped, step-Stepped}
use gigamonkey.Sv.BigNum.{BigNum}

read_instruction-end : (n : ℕ) (s : List ℕ) → length s ≤ n → read_instruction (drop n s) ≡ []
unfolding read_instruction instruction_size
read_instruction-end zero [] h = refl
read_instruction-end zero (x ∷ s) h = absurd (omega (arith, h))
read_instruction-end (suc n) [] h = refl
read_instruction-end (suc n) (x ∷ s) h = read_instruction-end n s (omega (arith, h))

-- A step that returns neither an error nor success.
pub data IsStuck : Outcome State (Unit {0}) → Type 0 where
  stuck :
      {r : EvalResult} {y : State}
      → is_ok r.error ≡ true
      → r.success ≡ false
      → IsStuck (returns r y)

module _ (b : BigNum) (h : Hashes) (g : Signatures) where
  -- the states that `run` goes through
  pub data Reaches : State → State → Type 0 where
    here : {x : State} → Reaches x x
    onward : {x y z : State} → step b h g x ≡ done tt y → Reaches y z → Reaches x z

  -- `run` has come to an end, or it has reached a step that is none
  abbrev pub EndsOrSticks : ℕ → State → Type 0
  EndsOrSticks fuel x =
      ((r : EvalResult × State) × (run b h g fuel x ≡ some r))
      ⊎ ((y : State) × Reaches x y × IsStuck (step b h g y))

  step_at-end : (x y : State) (bytes : List ℕ) → bytes ≡ [] → step_at b h g bytes x ≡ done tt y → ⊥
  unfolding step_at
  step_at-end x y [] e d = ground (arith, d)
  step_at-end x y (op ∷ rest) e d = ground (arith, e)

  -- At the end of the script a step is an end.
  done-inside :
      (x y : State)
      → IsAt x.counter
      → step b h g x ≡ done tt y
      → x.counter.counter < length x.counter.script
  unfolding step
  done-inside x y (le, sep, next) e =
      elim (Bool-cases (ltb x.counter.counter (length x.counter.script))) [
        | inl h ↦ ground (arith, h)
        | inr h ↦ absurd (
            step_at-end x y x.counter.next
              (next ∙ read_instruction-end x.counter.counter x.counter.script (ground (arith, h)))
              e)
      ]

  -- what `run` makes of a step
  continue : Outcome State (Unit {0}) → Option (EvalResult × State) → Option (EvalResult × State)
  continue o rest =
      if not (is_ok (result_of b h g o).error) || (result_of b h g o).success
      then some (result_of b h g o, final o)
      else rest

  run-suc :
      (fuel : ℕ) (x : State)
      → run b h g (suc fuel) x ≡ continue (step b h g x) (run b h g fuel (final (step b h g x)))
  unfolding run continue
  run-suc fuel x = refl

  continue-returns :
      (y : State) (r : EvalResult) (rest : Option (EvalResult × State))
      → ((z : EvalResult × State) × (continue (returns r y) rest ≡ some z)) ⊎ IsStuck (returns r y)
  unfolding continue result_of
  continue-returns y r rest = elim (Bool-cases (is_ok r.error)) [
    | inr h ↦ inl ((r, y), rw h)
    | inl h ↦ elim (Bool-cases r.success) [
      | inl good ↦ inl ((r, y), rw (h, good))
      | inr bad ↦ inr (stuck h bad)
    ]
  ]

  continue-throws :
      (t : Exception) (y : State) (rest : Option (EvalResult × State))
      → continue (throws t y) rest ≡ some (fails (caught b h g t), y)
  unfolding continue result_of caught
  continue-throws Exception.scriptnum_overflow_error y rest = refl
  continue-throws Exception.scriptnum_minencode_error y rest = refl
  continue-throws Exception.stack_overflow_error y rest = refl
  continue-throws Exception.big_int_error y rest = refl
  continue-throws Exception.out_of_range y rest = refl
  continue-throws Exception.other y rest = refl

  ends_after :
      (fuel : ℕ) (x : State) (o : Outcome State (Unit {0}))
      → step b h g x ≡ o
      → Stepped (frame x) o
      → IsAt x.counter
      → length x.counter.script < suc fuel + x.counter.counter
      → ((y : State)
          → IsAt y.counter
          → length y.counter.script < fuel + y.counter.counter
          → EndsOrSticks fuel y)
      → EndsOrSticks (suc fuel) x
  unfolding Stepped advance continue result_of
  ends_after fuel x (throws t y) e f at enough again = inl (
    (fails (caught b h g t), y),
    run-suc fuel x
        ∙ ap (λ o. continue o (run b h g fuel (final o))) e
        ∙ continue-throws t y (run b h g fuel y),
  )
  ends_after fuel x (returns r y) e f at enough again =
      elim (continue-returns y r (run b h g fuel y)) [
        | inl (z, ends) ↦
            inl (z, run-suc fuel x ∙ ap (λ o. continue o (run b h g fuel (final o))) e ∙ ends)
        | inr s ↦ inr (x, here, subst IsStuck (sym e) s)
      ]
  ends_after fuel x (done a y) e f at enough again =
      let moves : y.counter ≡ advance x.counter = ap (λ k. k.counter) f in
      let (at', further) = advance-IsAt x.counter at in
      let on = further (done-inside x y at e) in
      let enough' : length (advance x.counter).script < fuel + (advance x.counter).counter =
        omega (arith, on, enough) in
      elim (again y (subst IsAt (sym moves) at')
        (subst (λ c. length c.script < fuel + c.counter) (sym moves) enough')) [
          | inl (z, ends) ↦
              inl (z, run-suc fuel x ∙ ap (λ o. continue o (run b h g fuel (final o))) e ∙ ends)
          | inr (z, path, s) ↦ inr (z, onward e path, s)
        ]

  -- With more steps than there are bytes left in the script, `run` comes to its end, or it goes through
  -- a state where a step returns neither an error nor success.
  pub run-ends :
      (fuel : ℕ) (x : State)
      → IsAt x.counter
      → length x.counter.script < fuel + x.counter.counter
      → EndsOrSticks fuel x
  run-ends zero x at enough = absurd (omega (arith, at.0, enough))
  run-ends (suc fuel) x at enough =
      ends_after fuel x (step b h g x) refl (step-Stepped b h g x) at enough (run-ends fuel)
