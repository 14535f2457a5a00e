-- ===== src/Script/Action.antt =====
-- Code that changes a state of type `S`, and ends in a value, in an early return of a result, or in
-- an exception. Whichever it is, the state that was reached stays.
use gigamonkey.Base.{Bool, true, false}
use gigamonkey.Script.Error.{ScriptError, EvalResult, Exception, fails}

pub data Outcome (S A : Type 0) : Type 0 where
  done : A → S → Outcome S A
  returns : EvalResult → S → Outcome S A
  throws : Exception → S → Outcome S A

abbrev pub Action : Type 0 → Type 0 → Type 0
Action S A = S → Outcome S A

infixl 5 ◌>>=◌ ◌>>◌
abbrev pub ◌>>=◌ : {S A B : Type 0} → Action S A → (A → Action S B) → Action S B
◌>>=◌ m f s = elim (m s) [
  | done a s' ↦ f a s'
  | returns r s' ↦ returns r s'
  | throws e s' ↦ throws e s'
]

abbrev pub ◌>>◌ : {S B : Type 0} → Action S (Unit {0}) → Action S B → Action S B
m >> k = m >>= λ _. k

abbrev pub pure : {S A : Type 0} → A → Action S A
pure a s = done a s

abbrev pub skip : {S : Type 0} → Action S (Unit {0})
skip s = done tt s

-- `return error`
abbrev pub fail : {S A : Type 0} → ScriptError → Action S A
fail e s = returns (fails e) s

-- `throw`
abbrev pub raise : {S A : Type 0} → Exception → Action S A
raise e s = throws e s

-- `if (b) return error`
abbrev pub fail_if : {S : Type 0} → Bool → ScriptError → Action S (Unit {0})
fail_if true e s = returns (fails e) s
fail_if false e s = done tt s

-- the state that an action left
abbrev pub final : {S A : Type 0} → Outcome S A → S
final (done a s) = s
final (returns r s) = s
final (throws e s) = s

module _ {S A : Type 0} where
  -- The value of a normal end satisfies `P`, and the state of any end satisfies `Inv`.
  pub data Ensures (Inv : S → Type 0) (P : A → Type 0) : Outcome S A → Type 0 where
    on_done : {a : A} {s : S} → P a → Inv s → Ensures Inv P (done a s)
    on_return : {r : EvalResult} {s : S} → Inv s → Ensures Inv P (returns r s)
    on_throw : {e : Exception} {s : S} → Inv s → Ensures Inv P (throws e s)

  pub Ensures-final :
      {Inv : S → Type 0} {P : A → Type 0} (o : Outcome S A) → Ensures Inv P o → Inv (final o)
  Ensures-final (done a s) (on_done p i) = i
  Ensures-final (returns r s) (on_return i) = i
  Ensures-final (throws e s) (on_throw i) = i

-- `m` keeps the invariant, and its value satisfies `P`.
abbrev pub Keeps : {S A : Type 0} → (S → Type 0) → (A → Type 0) → Action S A → Type 0
Keeps {S} Inv P m = (s : S) → Inv s → Ensures Inv P (m s)

abbrev pub Any : {A : Type 0} → A → Type 0
Any a = Unit {0}

module _ {S : Type 0} (Inv : S → Type 0) where
  Ensures-bind :
      {A B : Type 0} (P : A → Type 0) (Q : B → Type 0) (o : Outcome S A) (f : A → Action S B)
      → Ensures Inv P o
      → ((a : A) → P a → Keeps Inv Q (f a))
      → Ensures Inv Q
          (elim o [ done a s' ↦ f a s' | returns r s' ↦ returns r s' | throws e s' ↦ throws e s' ])
  Ensures-bind P Q (done a s) f (on_done p i) k = k a p s i
  Ensures-bind P Q (returns r s) f (on_return i) k = on_return i
  Ensures-bind P Q (throws e s) f (on_throw i) k = on_throw i

  pub Keeps-bind :
      {A B : Type 0} (P : A → Type 0) (Q : B → Type 0) (m : Action S A) (f : A → Action S B)
      → Keeps Inv P m
      → ((a : A) → P a → Keeps Inv Q (f a))
      → Keeps Inv Q (m >>= f)
  Keeps-bind P Q m f h k s i = Ensures-bind P Q (m s) f (h s i) k

  pub Keeps-fail : {A : Type 0} (P : A → Type 0) (e : ScriptError) → Keeps Inv P (fail e)
  Keeps-fail P e s i = on_return i

  pub Keeps-fail_if : (b : Bool) (e : ScriptError) → Keeps Inv Any (fail_if b e)
  Keeps-fail_if true e s i = on_return i
  Keeps-fail_if false e s i = on_done tt i
