-- ===== src/Script/Machine/StackOps.antt =====
-- src/gigamonkey/script/machine.cpp: the cases of `machine::state::step` that arrange the stacks.
pub mod Effects
pub mod Counted
use gigamonkey.Base.{
  ℕ, ◌+◌, Bool, true, false, List, [], ◌∷◌, ltb, if◌then◌else◌, length, ◌||◌, not,
}
use gigamonkey.Base.Int.{ℤ, pos}
use gigamonkey.Script.Action.{
  Action, Outcome, done, returns, throws, ◌>>=◌, ◌>>◌, skip, fail, fail_if,
}
use gigamonkey.Script.Error.{ScriptError, fails}
use gigamonkey.Script.Machine.{Rules, need, cast_to_bool}
use gigamonkey.Script.Stack.{
  Bytes, Stacks, StackOp, size, get_main, stacktop, push_back, pop_back, erase_range, erase, insert,
  swap_elements, move_to_alt, move_from_alt,
}
use gigamonkey.Sv.BigNum.{BigNum}
use gigamonkey.Sv.ScriptNum.{
  ScriptNum, small, big, from_bytes, num_less, less_int, to_size_t_limited, getvch,
}

-- OP_TOALTSTACK and OP_FROMALTSTACK
unfoldable pub to_alt_stack : StackOp (Unit {0})
to_alt_stack = do need 1; move_to_alt

unfoldable pub from_alt_stack : StackOp (Unit {0})
from_alt_stack = do
  (λ s. fail_if (ltb (length s.alt) 1) ScriptError.invalid_altstack_operation s)
  move_from_alt

-- OP_2DROP
unfoldable pub two_drop : StackOp (Unit {0})
two_drop = do need 2; pop_back; pop_back

-- OP_2DUP
unfoldable pub two_dup : StackOp (Unit {0})
two_dup = do need 2; vch1 ← stacktop 2; vch2 ← stacktop 1; push_back vch1; push_back vch2

-- OP_3DUP
unfoldable pub three_dup : StackOp (Unit {0})
three_dup = do
  need 3
  vch1 ← stacktop 3
  vch2 ← stacktop 2
  vch3 ← stacktop 1
  push_back vch1
  push_back vch2
  push_back vch3

-- OP_2OVER
unfoldable pub two_over : StackOp (Unit {0})
two_over = do need 4; vch1 ← stacktop 4; vch2 ← stacktop 3; push_back vch1; push_back vch2

-- OP_2ROT
unfoldable pub two_rot : StackOp (Unit {0})
two_rot = do
  need 6
  vch1 ← stacktop 6
  vch2 ← stacktop 5
  erase_range 6 4
  push_back vch1
  push_back vch2

-- OP_2SWAP
unfoldable pub two_swap : StackOp (Unit {0})
two_swap = do need 4; swap_elements 4 2; swap_elements 3 1

-- OP_IFDUP
unfoldable pub if_dup : StackOp (Unit {0})
if_dup = do need 1; vch ← stacktop 1; if cast_to_bool vch then push_back vch else skip

-- OP_DROP
unfoldable pub drop_op : StackOp (Unit {0})
drop_op = do need 1; pop_back

-- OP_DUP
unfoldable pub dup : StackOp (Unit {0})
dup = do need 1; vch ← stacktop 1; push_back vch

-- OP_NIP
unfoldable pub nip : StackOp (Unit {0})
nip = do need 2; erase 2

-- OP_OVER
unfoldable pub over : StackOp (Unit {0})
over = do need 2; vch ← stacktop 2; push_back vch

-- OP_ROT
unfoldable pub rot : StackOp (Unit {0})
rot = do need 3; swap_elements 3 2; swap_elements 2 1

-- OP_SWAP
unfoldable pub swap : StackOp (Unit {0})
swap = do need 2; swap_elements 2 1

-- OP_TUCK
unfoldable pub tuck : StackOp (Unit {0})
tuck = do need 2; vch ← stacktop 1; insert 2 vch

module _ (b : BigNum) where
  -- OP_DEPTH
  unfoldable pub depth : StackOp (Unit {0})
  depth = do l ← get_main; push_back (getvch b (big (b.bint (pos (length l)))))

  -- OP_SIZE
  unfoldable pub size_op : StackOp (Unit {0})
  size_op = do need 1; vch ← stacktop 1; push_back (getvch b (big (b.bint (pos (length vch)))))

  -- OP_PICK, and OP_ROLL where `roll`
  picked : Bool → ℕ → StackOp (Unit {0})
  picked roll n = do vch ← stacktop (n + 1); if roll then erase (n + 1) else skip; push_back vch

  unfoldable pub pick : Bool → Rules → StackOp (Unit {0})
  unfolding picked
  pick roll rules = do
    need 2
    top ← stacktop 1
    sn ← from_bytes b top rules.require_minimal rules.max_script_num_length rules.utxo_after_genesis
    pop_back
    l ← get_main
    fail_if (less_int b sn (pos 0) || not (less_int b sn (pos (length l))))
        ScriptError.invalid_stack_operation
    picked roll (to_size_t_limited b sn)

-- The op codes that arrange the elements there are, and what `step` does for each.
pub data Arrangement : Type 0 where
  op_toaltstack op_fromaltstack op_2drop op_2dup op_3dup op_2over op_2rot op_2swap : Arrangement
  op_ifdup op_drop op_dup op_nip op_over op_pick op_roll op_rot op_swap op_tuck : Arrangement

unfoldable pub arrange : BigNum → Rules → Arrangement → StackOp (Unit {0})
arrange b rules op_toaltstack = to_alt_stack
arrange b rules op_fromaltstack = from_alt_stack
arrange b rules op_2drop = two_drop
arrange b rules op_2dup = two_dup
arrange b rules op_3dup = three_dup
arrange b rules op_2over = two_over
arrange b rules op_2rot = two_rot
arrange b rules op_2swap = two_swap
arrange b rules op_ifdup = if_dup
arrange b rules op_drop = drop_op
arrange b rules op_dup = dup
arrange b rules op_nip = nip
arrange b rules op_over = over
arrange b rules op_pick = pick b false rules
arrange b rules op_roll = pick b true rules
arrange b rules op_rot = rot
arrange b rules op_swap = swap
arrange b rules op_tuck = tuck
