-- ===== src/Script/Machine/Spans.antt =====
-- src/sv/script/interpreter.cpp: the cases of `EvalScript` on byte strings: OP_CAT, OP_SPLIT,
-- OP_NUM2BIN, OP_BIN2NUM, OP_LSHIFT and OP_RSHIFT.
use gigamonkey.Base.{ℕ, ◌+◌, ◌-◌, ◌^◌, [], ◌∷◌, ltb, ◌==◌, if◌then◌else◌, length, not, ◌&&◌, ◌||◌}
use gigamonkey.Base.{bit_and, take, drop, set}
use gigamonkey.Base.Int.{pos}
use gigamonkey.Script.Action.{◌>>=◌, ◌>>◌, skip, fail_if}
use gigamonkey.Script.Error.{ScriptError}
use gigamonkey.Script.Machine.{Rules, need, max_script_element_size_before_genesis}
use gigamonkey.Script.Machine.Numeric.{operand}
use gigamonkey.Script.Stack.{
  Bytes, StackOp, stacktop, push_back, pop_back, overwrite, append_to_top, pad_right,
  minimally_encode_top,
}
use gigamonkey.Sv.BigNum.{BigNum}
use gigamonkey.Sv.IntSerialization.{is_minimally_encoded, back}
use gigamonkey.Sv.ScriptNum.{less_int, int_less, to_size_t_limited}

-- OP_CAT
unfoldable pub cat : Rules → StackOp (Unit {0})
cat rules = do
  need 2
  vch1 ← stacktop 2
  vch2 ← stacktop 1
  fail_if
      (not rules.utxo_after_genesis
        && ltb max_script_element_size_before_genesis (length vch1 + length vch2))
      ScriptError.push_size
  pop_back
  append_to_top vch2

-- `values.back () & 0x80`, and the bytes after `rawnum[rawnum.size () - 1] &= 0x7f`
unfoldable pub sign_bit : Bytes → ℕ
sign_bit [] = 0
sign_bit (x ∷ xs) = bit_and (back (x ∷ xs)) 0x80

unfoldable pub without_sign : Bytes → Bytes
without_sign [] = []
without_sign (x ∷ xs) = set (x ∷ xs) (length xs) (bit_and (back (x ∷ xs)) 0x7f)

-- OP_BIN2NUM
unfoldable pub bin2num : Rules → StackOp (Unit {0})
bin2num rules = do
  need 1
  _ ← minimally_encode_top
  n ← stacktop 1
  fail_if (not (is_minimally_encoded n rules.max_script_num_length))
      ScriptError.invalid_number_range

module _ (b : BigNum) where
  -- OP_SPLIT
  unfoldable pub split : Rules → StackOp (Unit {0})
  split rules = do
    need 2
    d ← stacktop 2
    top ← stacktop 1
    n ← operand b rules top
    fail_if (less_int b n (pos 0) || int_less b (pos (length d)) n) ScriptError.invalid_split_range
    pop_back
    pop_back
    push_back (take (to_size_t_limited b n) d)
    push_back (drop (to_size_t_limited b n) d)

  -- OP_NUM2BIN
  fit : ℕ → StackOp (Unit {0})
  fit size = do
    _ ← minimally_encode_top
    rawnum ← stacktop 1
    fail_if (ltb size (length rawnum)) ScriptError.impossible_encoding
    if length rawnum == size
        then skip
        else (do overwrite 1 (without_sign rawnum); pad_right size (sign_bit rawnum))

  unfoldable pub num2bin : Rules → StackOp (Unit {0})
  unfolding fit
  num2bin rules = do
    need 2
    arg_1 ← stacktop 1
    n ← operand b rules arg_1
    fail_if (less_int b n (pos 0) || int_less b (pos (2 ^ 31 - 1)) n) ScriptError.push_size
    fail_if
        (not rules.utxo_after_genesis
          && ltb max_script_element_size_before_genesis (to_size_t_limited b n))
        ScriptError.push_size
    pop_back
    fit (to_size_t_limited b n)
