-- ===== src/Script/Machine/Bitwise.antt =====
-- src/gigamonkey/script/machine.cpp: the cases of `machine::state::step` for bitwise logic.
use gigamonkey.Base.{ℕ, ◌-◌, Bool, [], ◌∷◌, ◌!=◌, if◌then◌else◌, length, bit_and, bit_or, bit_xor}
use gigamonkey.Script.Action.{◌>>=◌, ◌>>◌, skip, fail, fail_if}
use gigamonkey.Script.Counter.{same_bytes}
use gigamonkey.Script.Error.{ScriptError}
use gigamonkey.Script.Machine.{need, script_bool}
use gigamonkey.Script.Stack.{Bytes, StackOp, stacktop, push_back, pop_back, overwrite}

-- `for (…) vch1[i] = f (vch1[i], vch2[i])`, where the two have the same size
unfoldable pub combine_bytes : (ℕ → ℕ → ℕ) → Bytes → Bytes → Bytes
combine_bytes f [] ys = []
combine_bytes f (x ∷ xs) [] = x ∷ xs
combine_bytes f (x ∷ xs) (y ∷ ys) = f x y ∷ combine_bytes f xs ys

-- OP_AND, OP_OR and OP_XOR, by the operation on bytes
unfoldable pub bitwise : (ℕ → ℕ → ℕ) → StackOp (Unit {0})
unfolding combine_bytes
bitwise f = do
  need 2
  vch1 ← stacktop 2
  vch2 ← stacktop 1
  fail_if (length vch1 != length vch2) ScriptError.invalid_operand_size
  overwrite 2 (combine_bytes f vch1 vch2)
  pop_back

unfoldable pub and_op : StackOp (Unit {0})
and_op = bitwise bit_and

unfoldable pub or_op : StackOp (Unit {0})
or_op = bitwise bit_or

unfoldable pub xor_op : StackOp (Unit {0})
xor_op = bitwise bit_xor

-- `for (…) vch1[i] = ~vch1[i]`
unfoldable pub complement : Bytes → Bytes
complement [] = []
complement (x ∷ xs) = (255 - x) ∷ complement xs

-- OP_INVERT
unfoldable pub invert : StackOp (Unit {0})
unfolding complement
invert = do need 1; vch1 ← stacktop 1; overwrite 1 (complement vch1)

-- OP_EQUAL, and OP_EQUALVERIFY where `verify`
unfoldable pub equal_op : Bool → StackOp (Unit {0})
equal_op verify = do
  need 2
  vch1 ← stacktop 2
  vch2 ← stacktop 1
  pop_back
  pop_back
  push_back (script_bool (same_bytes vch1 vch2))
  if verify
      then (if same_bytes vch1 vch2 then pop_back else fail ScriptError.equal_verify)
      else skip
