-- ===== src/Sighash/Kept.antt =====
-- Sighash.antt: what the original algorithm keeps of a transaction, by the kind of the directive.
use gigamonkey.Base.{
  ℕ, zero, suc, List, [], ◌∷◌, ◌++◌, Option, none, some, Bool, true, false, ◌≡◌, refl,
}
use gigamonkey.Base.{length, get_elem?, ◌||◌}
use gigamonkey.P2p.VarInt.{◌>>=◌}
use gigamonkey.Script.Document
use gigamonkey.Script.Document.{Output, SighashDocument, has_fork_id}
use gigamonkey.Sighash
use gigamonkey.Timechain.Incomplete.{complete_input}
use gigamonkey.Timechain.Transaction.{Input}
use mathlib.Core.List.{map}

-- What a directive signs of the outputs, and the directives without a fork id: with `anyone` it signs no
-- other input.
pub data Kind : Type 0 where
  every_output no_output matching_output : Kind

abbrev pub directive_of : Kind → Bool → ℕ
directive_of every_output false = 0x01
directive_of no_output false = 0x02
directive_of matching_output false = 0x03
directive_of every_output true = 0x81
directive_of no_output true = 0x82
directive_of matching_output true = 0x83

-- The outputs that are signed, for an input at index `i`.
abbrev pub kept_outputs : Kind → List Output → ℕ → Option (List Output)
kept_outputs every_output os i = some os
kept_outputs no_output os i = some []
kept_outputs matching_output [] i = none
kept_outputs matching_output (o ∷ os) zero = some (o ∷ [])
kept_outputs matching_output (o ∷ os) (suc i) = kept_outputs matching_output os i

-- An input that is not the one that is signed has no script, and its sequence only where every output
-- is signed.
abbrev pub sequence_kept : Kind → ℕ → ℕ
sequence_kept every_output n = n
sequence_kept _ n = 0

abbrev pub blank : Kind → Document.Input → Input
blank kind y = record {
  reference = y.reference;
  script = [];
  sequence = sequence_kept kind y.sequence;
}

-- The inputs that are signed, for input `x` between those before and after it, with the code in the
-- place of its script.
abbrev pub kept_inputs :
    Kind → Bool → List Document.Input → Document.Input → List Document.Input → List ℕ → List Input
kept_inputs kind true before x after code = complete_input x code ∷ []
kept_inputs kind false before x after code =
    map (blank kind) before ++ (complete_input x code ∷ map (blank kind) after)

pub elem-middle :
    (before : List Document.Input) (x : Document.Input) (after : List Document.Input)
    → get_elem? (before ++ (x ∷ after)) (length before) ≡ some x
elem-middle [] x after = refl
elem-middle (y ∷ before) x after = elem-middle before x after

pub matching :
    (os : List Output) (i : ℕ)
    → (get_elem? os i >>= λ o. some (o ∷ [])) ≡ kept_outputs matching_output os i
matching [] i = refl
matching (o ∷ os) zero = refl
matching (o ∷ os) (suc i) = matching os i

pub anyone_of :
    (kind : Kind) (anyone : Bool) → Sighash.is_anyone_can_pay (directive_of kind anyone) ≡ anyone
unfolding Sighash.is_anyone_can_pay
anyone_of every_output true = refl
anyone_of every_output false = refl
anyone_of no_output true = refl
anyone_of no_output false = refl
anyone_of matching_output true = refl
anyone_of matching_output false = refl

pub or_true : (c : Bool) → (c || true) ≡ true
or_true true = refl
or_true false = refl
