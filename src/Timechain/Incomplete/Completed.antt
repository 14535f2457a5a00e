-- ===== src/Timechain/Incomplete/Completed.antt =====
-- Timechain/Incomplete.antt: completing a transaction and forgetting its scripts undo each other.
use gigamonkey.Base.{ℕ, List, [], ◌∷◌, some, false, ◌≡◌, refl, ap, arith, suc, ◌!=◌, length}
use gigamonkey.Script.Document
use gigamonkey.Timechain.Incomplete.{
  incomplete, incomplete_input, complete_input, complete_inputs, complete,
}
use gigamonkey.Timechain.Transaction.{Input, Transaction}
use mathlib.Core.List.{map}

length-map : {A B : Type 0} (f : A → B) (l : List A) → length (map f l) ≡ length l
length-map f [] = refl
length-map f (x ∷ l) = ap suc (length-map f l)

complete_inputs-incomplete :
    (l : List Input) → complete_inputs (map incomplete_input l) (map (λ i. i.script) l) ≡ l
unfolding complete_inputs complete_input incomplete_input
complete_inputs-incomplete [] = refl
complete_inputs-incomplete (i ∷ l) = ap (λ t. i ∷ t) (complete_inputs-incomplete l)

-- A transaction is the completion, with its scripts, of what is left without them.
pub complete-incomplete :
    (t : Transaction) → complete (incomplete t) (map (λ i. i.script) t.inputs) ≡ some t
unfolding complete incomplete
complete-incomplete t =
    let same : (length (map (λ (i : Input). i.script) t.inputs)
          != length (map incomplete_input t.inputs))
        ≡ false =
      ground (
        arith,
        length-map (λ (i : Input). i.script) t.inputs,
        length-map incomplete_input t.inputs,
      ) in
    rw (same, complete_inputs-incomplete t.inputs) refl

incomplete-complete_inputs :
    (l : List Document.Input) (scripts : List (List ℕ))
    → length scripts ≡ length l
    → map incomplete_input (complete_inputs l scripts) ≡ l
unfolding complete_inputs complete_input incomplete_input
incomplete-complete_inputs [] scripts e = refl
incomplete-complete_inputs (i ∷ l) [] e = absurd (omega (arith, e))
incomplete-complete_inputs (i ∷ l) (x ∷ scripts) e =
    ap (λ t. i ∷ t) (incomplete-complete_inputs l scripts (omega (arith, e)))

scripts-complete_inputs :
    (l : List Document.Input) (scripts : List (List ℕ))
    → length scripts ≡ length l
    → map (λ i. i.script) (complete_inputs l scripts) ≡ scripts
unfolding complete_inputs complete_input
scripts-complete_inputs [] [] e = refl
scripts-complete_inputs [] (x ∷ scripts) e = absurd (omega (arith, e))
scripts-complete_inputs (i ∷ l) [] e = absurd (omega (arith, e))
scripts-complete_inputs (i ∷ l) (x ∷ scripts) e =
    ap (λ t. x ∷ t) (scripts-complete_inputs l scripts (omega (arith, e)))

-- Where there is a script for each input, a transaction can be completed; the scripts of its completion
-- are these, in their order, and without them it is the transaction again.
pub incomplete-complete :
    (t : Document.Transaction) (scripts : List (List ℕ))
    → length scripts ≡ length t.inputs
    → (u : Transaction) × ((complete t scripts ≡ some u)
        × ((map (λ i. i.script) u.inputs ≡ scripts) × (incomplete u ≡ t)))
unfolding complete incomplete
incomplete-complete t scripts e =
    let same : (length scripts != length t.inputs) ≡ false = ground (arith, e) in
    (
      record {
        version = t.version;
        inputs = complete_inputs t.inputs scripts;
        outputs = t.outputs;
        locktime = t.locktime;
      },
      (
        rw (same) refl,
        (
          scripts-complete_inputs t.inputs scripts e,
          rw (incomplete-complete_inputs t.inputs scripts e) refl,
        ),
      ),
    )
