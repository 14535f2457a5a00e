-- ===== src/Script/Machine/StackOps/Effects.antt =====
-- src/gigamonkey/script/machine.cpp: what the operations that arrange the stack do to it.
use gigamonkey.Base.{ℕ, ◌<◌, ◌≤◌, ◌≡◌, List, ◌∷◌, false, ltb, arith}
use gigamonkey.Script.Action.{done, returns, ◌>>=◌}
use gigamonkey.Script.Error.{ScriptError, fails}
use gigamonkey.Script.Machine.{Rules, need}
use gigamonkey.Script.Machine.StackOps.{
  Arrangement, op_toaltstack, op_fromaltstack, op_2drop, op_2dup, op_3dup, op_2over, op_2rot,
  op_2swap, op_ifdup, op_drop, op_dup, op_nip, op_over, op_pick, op_roll, op_rot, op_swap, op_tuck,
  arrange, to_alt_stack, from_alt_stack, two_drop, two_dup, three_dup, two_over, two_rot, two_swap,
  if_dup, drop_op, dup, nip, over, pick, rot, swap, tuck,
}
use gigamonkey.Script.Stack.{Bytes, Stacks, StackOp, size, swap_elements, at_distance}
use gigamonkey.Sv.BigNum.{BigNum}

-- How many elements an op code needs of the stack.
abbrev pub needed : Arrangement → ℕ
needed op_toaltstack = 1
needed op_fromaltstack = 0
needed op_2drop = 2
needed op_2dup = 2
needed op_3dup = 3
needed op_2over = 4
needed op_2rot = 6
needed op_2swap = 4
needed op_ifdup = 1
needed op_drop = 1
needed op_dup = 1
needed op_nip = 2
needed op_over = 2
needed op_pick = 2
needed op_roll = 2
needed op_rot = 3
needed op_swap = 2
needed op_tuck = 2

need-fails :
    {A : Type 0} (n : ℕ) (s : Stacks) (k : Unit {0} → StackOp A)
    → size s < n
    → (need n >>= k) s ≡ returns (fails ScriptError.invalid_stack_operation) s
need-fails n s k h = ground (arith, h)

need-passes :
    {A : Type 0} (n : ℕ) (s : Stacks) (k : Unit {0} → StackOp A)
    → n ≤ size s
    → (need n >>= k) s ≡ k tt s
need-passes n s k h = ground (arith, h)

-- An op code that finds too few elements returns the error, and leaves the stacks as they were.
pub arrange-short :
    (b : BigNum) (rules : Rules) (o : Arrangement) (s : Stacks)
    → size s < needed o
    → arrange b rules o s ≡ returns (fails ScriptError.invalid_stack_operation) s
unfolding arrange to_alt_stack from_alt_stack two_drop two_dup three_dup two_over two_rot two_swap
    if_dup drop_op dup nip over pick rot swap tuck
arrange-short b rules op_toaltstack s h = need-fails 1 s _ h
arrange-short b rules op_fromaltstack s h = absurd (omega (arith, h))
arrange-short b rules op_2drop s h = need-fails 2 s _ h
arrange-short b rules op_2dup s h = need-fails 2 s _ h
arrange-short b rules op_3dup s h = need-fails 3 s _ h
arrange-short b rules op_2over s h = need-fails 4 s _ h
arrange-short b rules op_2rot s h = need-fails 6 s _ h
arrange-short b rules op_2swap s h = need-fails 4 s _ h
arrange-short b rules op_ifdup s h = need-fails 1 s _ h
arrange-short b rules op_drop s h = need-fails 1 s _ h
arrange-short b rules op_dup s h = need-fails 1 s _ h
arrange-short b rules op_nip s h = need-fails 2 s _ h
arrange-short b rules op_over s h = need-fails 2 s _ h
arrange-short b rules op_pick s h = need-fails 2 s _ h
arrange-short b rules op_roll s h = need-fails 2 s _ h
arrange-short b rules op_rot s h = need-fails 3 s _ h
arrange-short b rules op_swap s h = need-fails 2 s _ h
arrange-short b rules op_tuck s h = need-fails 2 s _ h

enough : (n k : ℕ) → k ≤ n → ltb n k ≡ false
enough n k h = ground (arith, h)

-- The stacks with other elements and the same count.
abbrev pub with_main : Stacks → List Bytes → Stacks
with_main s l = record s { main = l }

pub swap_lem :
    (s : Stacks) (x1 x2 : Bytes) (l : List Bytes)
    → swap (with_main s (x2 ∷ x1 ∷ l)) ≡ done tt (with_main s (x1 ∷ x2 ∷ l))
unfolding swap swap_elements at_distance
swap_lem s x1 x2 l = need-passes 2 (with_main s (x2 ∷ x1 ∷ l)) _ (omega arith)

pub rot_lem :
    (s : Stacks) (x1 x2 x3 : Bytes) (l : List Bytes)
    → rot (with_main s (x3 ∷ x2 ∷ x1 ∷ l)) ≡ done tt (with_main s (x1 ∷ x3 ∷ x2 ∷ l))
unfolding rot swap_elements at_distance
rot_lem s x1 x2 x3 l = need-passes 3 (with_main s (x3 ∷ x2 ∷ x1 ∷ l)) _ (omega arith)

-- OP_2SWAP exchanges the two pairs of elements at the top, and changes nothing else.
pub two_swap_lem :
    (s : Stacks) (x1 x2 x3 x4 : Bytes) (l : List Bytes)
    → two_swap (with_main s (x4 ∷ x3 ∷ x2 ∷ x1 ∷ l)) ≡ done tt (with_main s (x2 ∷ x1 ∷ x4 ∷ x3 ∷ l))
unfolding two_swap swap_elements at_distance
two_swap_lem s x1 x2 x3 x4 l = need-passes 4 (with_main s (x4 ∷ x3 ∷ x2 ∷ x1 ∷ l)) _ (omega arith)
