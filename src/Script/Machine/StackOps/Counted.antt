-- ===== src/Script/Machine/StackOps/Counted.antt =====
-- src/gigamonkey/script/machine.cpp: the operations that arrange the stack keep its memory counted.
use gigamonkey.Base.{
  ℕ, ◌+◌, Bool, true, false, length, ltb, if◌then◌else◌, ◌||◌, ◌&&◌, not, Bool-cases, Option-cases,
  inl, inr,
}
use gigamonkey.Base.Int.{pos}
use gigamonkey.Script.Action.{
  Keeps, Any, Ensures-final, final, Keeps-bind, Keeps-fail_if, ◌>>=◌, ◌>>◌, on_done, on_throw, skip,
}
use gigamonkey.Script.Error.{ScriptError}
use gigamonkey.Script.Machine.{Rules, need, cast_to_bool}
use gigamonkey.Script.Machine.StackOps.{
  Arrangement, op_toaltstack, op_fromaltstack, op_2drop, op_2dup, op_3dup, op_2over, op_2rot,
  op_2swap, op_ifdup, op_drop, op_dup, op_nip, op_over, op_pick, op_roll, op_rot, op_swap, op_tuck,
  arrange, to_alt_stack, from_alt_stack, two_drop, two_dup, three_dup, two_over, two_rot, two_swap,
  if_dup, drop_op, dup, nip, over, picked, pick, rot, swap, tuck,
}
use gigamonkey.Script.Stack.{
  Bytes, Stacks, StackOp, size, get_main, stacktop, push_back, pop_back, erase,
}
use gigamonkey.Script.Stack.Memory.{
  WellCounted, IsSize, stacktop-Keeps, push_back-Keeps, pop_back-Keeps, insert-Keeps, erase-Keeps,
}
use gigamonkey.Script.Stack.Counted.{swap_elements-Keeps, move_to_alt-Keeps, move_from_alt-Keeps}
use gigamonkey.Script.Stack.Erased.{erase_range-Keeps}
use gigamonkey.Sv.BigNum.{BigNum}
use gigamonkey.Sv.IntSerialization.{is_minimally_encoded}
use gigamonkey.Sv.ScriptNum.{from_bytes, read_span, less_int, to_size_t_limited}

infixr 4 ◌then◌
◌then◌ :
    {m k : StackOp (Unit {0})}
    → Keeps WellCounted Any m
    → Keeps WellCounted Any k
    → Keeps WellCounted Any (m >> k)
◌then◌ {m} {k} h g = Keeps-bind WellCounted Any Any m (λ _. k) h (λ _ _. g)

-- with the element at a distance
with_top :
    (n : ℕ) (f : Bytes → StackOp (Unit {0}))
    → ((v : Bytes) → IsSize v → Keeps WellCounted Any (f v))
    → Keeps WellCounted Any (stacktop n >>= f)
with_top n f h = Keeps-bind WellCounted IsSize Any (stacktop n) f (stacktop-Keeps n) h

needs :
    (n : ℕ) (k : StackOp (Unit {0})) → Keeps WellCounted Any k → Keeps WellCounted Any (need n >> k)
needs n k h =
    Keeps-bind WellCounted Any Any (need n) (λ _. k)
      (λ s. Keeps-fail_if WellCounted (ltb (size s) n) ScriptError.invalid_stack_operation s)
      (λ _ _. h)

from_alt_stack-Keeps : Keeps WellCounted Any from_alt_stack
unfolding from_alt_stack
from_alt_stack-Keeps =
    Keeps-bind WellCounted Any Any _ _
      (λ s.
        Keeps-fail_if WellCounted (ltb (length s.alt) 1) ScriptError.invalid_altstack_operation s)
      (λ _ _. move_from_alt-Keeps)

skip-Keeps : Keeps WellCounted Any (skip {S = Stacks})
skip-Keeps s i = on_done tt i

if-Keeps :
    (c : Bool) (m k : StackOp (Unit {0}))
    → Keeps WellCounted Any m
    → Keeps WellCounted Any k
    → Keeps WellCounted Any (if c then m else k)
if-Keeps true m k h g = h
if-Keeps false m k h g = g

two_drop-Keeps : Keeps WellCounted Any two_drop
unfolding two_drop
two_drop-Keeps =
    needs 2 _ (
      Keeps-bind WellCounted Any Any pop_back (λ _. pop_back) pop_back-Keeps
        (λ _ _. pop_back-Keeps))

two_dup-Keeps : Keeps WellCounted Any two_dup
unfolding two_dup
two_dup-Keeps = needs 2 _ (
    with_top 2 _
      (λ v1 h1. with_top 1 _ (λ v2 h2. (push_back-Keeps v1 h1) then (push_back-Keeps v2 h2))))

three_dup-Keeps : Keeps WellCounted Any three_dup
unfolding three_dup
three_dup-Keeps = needs 3 _ (
    with_top 3 _ λ v1 h1. with_top 2 _ λ v2 h2.
      with_top 1 _ λ v3 h3.
        (push_back-Keeps v1 h1) then ((push_back-Keeps v2 h2) then (push_back-Keeps v3 h3)))

two_over-Keeps : Keeps WellCounted Any two_over
unfolding two_over
two_over-Keeps = needs 4 _ (
    with_top 4 _
      λ v1 h1. with_top 3 _ λ v2 h2. (push_back-Keeps v1 h1) then (push_back-Keeps v2 h2))

two_rot-Keeps : Keeps WellCounted Any two_rot
unfolding two_rot
two_rot-Keeps = needs 6 _ (
    with_top 6 _ λ v1 h1.
      with_top 5 _ λ v2 h2.
        (erase_range-Keeps 6 4) then ((push_back-Keeps v1 h1) then (push_back-Keeps v2 h2)))

two_swap-Keeps : Keeps WellCounted Any two_swap
unfolding two_swap
two_swap-Keeps = needs 4 _ ((swap_elements-Keeps 4 2) then (swap_elements-Keeps 3 1))

if_dup-Keeps : Keeps WellCounted Any if_dup
unfolding if_dup
if_dup-Keeps = needs 1 _ (
    with_top 1 _
      λ v h. if-Keeps (cast_to_bool v) (push_back v) skip (push_back-Keeps v h) skip-Keeps)

over-Keeps : (n : ℕ) → Keeps WellCounted Any (need n >> (stacktop n >>= push_back))
over-Keeps n = needs n _ (with_top n _ push_back-Keeps)

tuck-Keeps : Keeps WellCounted Any tuck
unfolding tuck
tuck-Keeps = needs 2 _ (with_top 1 _ λ v h. insert-Keeps 2 v h)

-- Reading a number does not touch the stacks.
from_bytes-Keeps :
    (b : BigNum) (v : Bytes) (minimal : Bool) (max : ℕ) (big_int : Bool)
    → Keeps WellCounted Any (from_bytes b v minimal max big_int)
unfolding from_bytes
from_bytes-Keeps b v minimal max big_int s i = elim (Bool-cases (ltb max (length v))) [
  | inl e ↦ rw e (on_throw i)
  | inr e ↦ elim (Bool-cases (minimal && not (is_minimally_encoded v max))) [
    | inl e' ↦ rw (e, e') (on_throw i)
    | inr e' ↦ elim (Option-cases (read_span b v big_int)) [
      | inl undefined ↦ rw (e, e', undefined) (on_throw i)
      | inr (n, got) ↦ rw (e, e', got) (on_done tt i)
    ]
  ]
]

picked-Keeps : (b : BigNum) (roll : Bool) (n : ℕ) → Keeps WellCounted Any (picked b roll n)
unfolding picked
picked-Keeps b roll n = with_top (n + 1) _ λ v h.
    (if-Keeps roll (erase (n + 1)) skip (erase-Keeps (n + 1)) skip-Keeps) then (push_back-Keeps v h)

get_main-Keeps : Keeps WellCounted Any get_main
get_main-Keeps s i = on_done tt i

pick-Keeps : (b : BigNum) (roll : Bool) (rules : Rules) → Keeps WellCounted Any (pick b roll rules)
unfolding pick
pick-Keeps b roll rules = needs 2 _ (
    with_top 1 _ λ v h.
      Keeps-bind WellCounted Any Any _ _
        (from_bytes-Keeps b v rules.require_minimal rules.max_script_num_length
          rules.utxo_after_genesis)
        λ sn _.
          pop_back-Keeps
          then (Keeps-bind WellCounted Any Any get_main _ get_main-Keeps λ l _.
              (Keeps-fail_if WellCounted
                (less_int b sn (pos 0) || not (less_int b sn (pos (length l))))
                ScriptError.invalid_stack_operation)
              then (picked-Keeps b roll (to_size_t_limited b sn))))

arrange-Keeps :
    (b : BigNum) (rules : Rules) (o : Arrangement) → Keeps WellCounted Any (arrange b rules o)
unfolding arrange to_alt_stack drop_op dup nip over rot swap
arrange-Keeps b rules op_toaltstack = needs 1 _ move_to_alt-Keeps
arrange-Keeps b rules op_fromaltstack = from_alt_stack-Keeps
arrange-Keeps b rules op_2drop = two_drop-Keeps
arrange-Keeps b rules op_2dup = two_dup-Keeps
arrange-Keeps b rules op_3dup = three_dup-Keeps
arrange-Keeps b rules op_2over = two_over-Keeps
arrange-Keeps b rules op_2rot = two_rot-Keeps
arrange-Keeps b rules op_2swap = two_swap-Keeps
arrange-Keeps b rules op_ifdup = if_dup-Keeps
arrange-Keeps b rules op_drop = needs 1 _ pop_back-Keeps
arrange-Keeps b rules op_dup = over-Keeps 1
arrange-Keeps b rules op_nip = needs 2 _ (erase-Keeps 2)
arrange-Keeps b rules op_over = over-Keeps 2
arrange-Keeps b rules op_pick = pick-Keeps b false rules
arrange-Keeps b rules op_roll = pick-Keeps b true rules
arrange-Keeps b rules op_rot = needs 3 _ ((swap_elements-Keeps 3 2) then (swap_elements-Keeps 2 1))
arrange-Keeps b rules op_swap = needs 2 _ (swap_elements-Keeps 2 1)
arrange-Keeps b rules op_tuck = tuck-Keeps

-- Whatever an op code that arranges the stacks ends in, the memory of the two stacks is counted
-- truly after it, and within its limit, where it was before.
pub arrange-WellCounted :
    (b : BigNum) (rules : Rules) (o : Arrangement) (s : Stacks)
    → WellCounted s
    → WellCounted (final (arrange b rules o s))
arrange-WellCounted b rules o s i =
    Ensures-final (arrange b rules o s) (arrange-Keeps b rules o s i)
