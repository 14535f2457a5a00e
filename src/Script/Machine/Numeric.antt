-- ===== src/Script/Machine/Numeric.antt =====
-- src/gigamonkey/script/machine.cpp: the cases of `machine::state::step` on numbers.
use gigamonkey.Base.{ℕ, Bool, true, false, if◌then◌else◌, not, ◌&&◌, ◌||◌}
use gigamonkey.Base.Int.{pos, ◌-ℤ◌}
use gigamonkey.Script.Action.{◌>>=◌, ◌>>◌, pure, skip, fail}
use gigamonkey.Script.Error.{ScriptError}
use gigamonkey.Script.Machine.{Rules, need, cast_to_bool, script_bool}
use gigamonkey.Script.Stack.{Bytes, StackOp, stacktop, push_back, pop_back}
use gigamonkey.Sv.BigNum.{BigNum}
use gigamonkey.Sv.ScriptNum.{
  ScriptNum, small, big, from_bytes, num_equal, num_less, num_add, num_subtract, num_multiply,
  num_divide, num_modulo, num_negate, getvch,
}

pub data UnaryOp : Type 0 where
  one_add one_sub negate_op abs_op not_op zero_not_equal : UnaryOp

pub data BinaryOp : Type 0 where
  add_op sub_op mul_op div_op mod_op bool_and bool_or : BinaryOp
  num_equal_op num_equal_verify num_not_equal : BinaryOp
  less_than greater_than less_than_or_equal greater_than_or_equal min_op max_op : BinaryOp

module _ (b : BigNum) where
  -- `bn = condition`
  abbrev pub truth : Bool → ScriptNum b
  truth true = small (pos 1)
  truth false = small (pos 0)

  -- `script_zero`, and the one of `OP_1ADD`
  abbrev pub script_zero : ScriptNum b
  script_zero = small (pos 0)

  abbrev pub one_of : Bool → ScriptNum b
  one_of true = big (b.bint (pos 1))
  one_of false = small (pos 1)

  -- the number an op code pushes: OP_1NEGATE and OP_1 to OP_16
  unfoldable pub push_number : ℕ → StackOp (Unit {0})
  push_number op = push_back (getvch b (small (pos op -ℤ pos 0x50)))

  unfoldable pub operand : Rules → Bytes → StackOp (ScriptNum b)
  operand rules v =
      from_bytes b v rules.require_minimal rules.max_script_num_length rules.utxo_after_genesis

  unfoldable pub unary_result : UnaryOp → Bool → ScriptNum b → StackOp (ScriptNum b)
  unary_result one_add after bn = num_add b bn (one_of after)
  unary_result one_sub after bn = num_subtract b bn (one_of after)
  unary_result negate_op after bn = pure (num_negate b bn)
  unary_result abs_op after bn = pure (if num_less b bn script_zero then num_negate b bn else bn)
  unary_result not_op after bn = pure (truth (num_equal b bn script_zero))
  unary_result zero_not_equal after bn = pure (truth (not (num_equal b bn script_zero)))

  -- OP_1ADD to OP_0NOTEQUAL
  unfoldable pub unary : UnaryOp → Rules → StackOp (Unit {0})
  unary op rules = do
    need 1
    top ← stacktop 1
    bn ← operand rules top
    out ← unary_result op rules.utxo_after_genesis bn
    pop_back
    push_back (getvch b out)

  unfoldable pub binary_result : BinaryOp → ScriptNum b → ScriptNum b → StackOp (ScriptNum b)
  binary_result add_op m n = num_add b m n
  binary_result sub_op m n = num_subtract b m n
  binary_result mul_op m n = num_multiply b m n
  binary_result div_op m n =
      if num_equal b n script_zero then fail ScriptError.div_by_zero else num_divide b m n
  binary_result mod_op m n =
      if num_equal b n script_zero then fail ScriptError.mod_by_zero else num_modulo b m n
  binary_result bool_and m n =
      pure (truth (not (num_equal b m script_zero) && not (num_equal b n script_zero)))
  binary_result bool_or m n =
      pure (truth (not (num_equal b m script_zero) || not (num_equal b n script_zero)))
  binary_result num_equal_op m n = pure (truth (num_equal b m n))
  binary_result num_equal_verify m n = pure (truth (num_equal b m n))
  binary_result num_not_equal m n = pure (truth (not (num_equal b m n)))
  binary_result less_than m n = pure (truth (num_less b m n))
  binary_result greater_than m n = pure (truth (num_less b n m))
  binary_result less_than_or_equal m n = pure (truth (not (num_less b n m)))
  binary_result greater_than_or_equal m n = pure (truth (not (num_less b m n)))
  binary_result min_op m n = pure (if num_less b m n then m else n)
  binary_result max_op m n = pure (if num_less b n m then m else n)

  -- `if (CastToBool (…)) Stack.pop_back (); else return SCRIPT_ERR_NUMEQUALVERIFY`
  verified : BinaryOp → StackOp (Unit {0})
  verified num_equal_verify = do
    top ← stacktop 1
    if cast_to_bool top then pop_back else fail ScriptError.num_equal_verify
  verified _ = skip

  -- OP_ADD to OP_MAX. The test of the stack's size has no `return`, and does nothing.
  unfoldable pub binary : BinaryOp → Rules → StackOp (Unit {0})
  unfolding verified
  binary op rules = do
    arg_2 ← stacktop 2
    arg_1 ← stacktop 1
    bn1 ← operand rules arg_2
    bn2 ← operand rules arg_1
    out ← binary_result op bn1 bn2
    pop_back
    pop_back
    push_back (getvch b out)
    verified op

  -- OP_WITHIN
  unfoldable pub within : Rules → StackOp (Unit {0})
  within rules = do
    need 3
    top_3 ← stacktop 3
    bn1 ← operand rules top_3
    top_2 ← stacktop 2
    bn2 ← operand rules top_2
    top_1 ← stacktop 1
    bn3 ← operand rules top_1
    pop_back
    pop_back
    pop_back
    push_back (script_bool (not (num_less b bn1 bn2) && num_less b bn1 bn3))

-- OP_VERIFY
unfoldable pub verify_op : StackOp (Unit {0})
verify_op = do
  need 1
  top ← stacktop 1
  if cast_to_bool top then pop_back else fail ScriptError.verify
