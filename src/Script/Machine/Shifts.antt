-- ===== src/Script/Machine/Shifts.antt =====
-- src/sv/script/interpreter.cpp: `RShift` and `LShift`, and the cases of `EvalScript` for OP_LSHIFT
-- and OP_RSHIFT. A byte string is a number with its highest byte first.
use gigamonkey.Base.{
  ℕ, zero, suc, ◌+◌, ◌-◌, ◌*◌, ◌/◌, ◌%◌, ◌^◌, Bool, true, false, [], ◌∷◌, ltb, leb, if◌then◌else◌,
  length, not, none, some,
}
use gigamonkey.Base.{bit_and, bit_or, set, get_elem?, replicate}
use gigamonkey.Base.Int.{pos, pos_part}
use gigamonkey.Script.Action.{◌>>=◌, ◌>>◌, pure, fail_if, raise}
use gigamonkey.Script.Error.{ScriptError, other}
use gigamonkey.Script.Machine.{Rules, need}
use gigamonkey.Script.Machine.Numeric.{operand}
use gigamonkey.Script.Stack.{Bytes, StackOp, stacktop, push_back, pop_back}
use gigamonkey.Sv.BigNum.{BigNum}
use gigamonkey.Sv.ScriptNum.{ScriptNum, small, big, less_int, int_less, num_subtract, getint}

abbrev pub byte_at : Bytes → ℕ → ℕ
byte_at v i = elim (get_elem? v i) [ none ↦ 0 | some x ↦ x ]

-- `make_rshift_mask` and `make_lshift_mask`
unfoldable pub make_rshift_mask : ℕ → ℕ
make_rshift_mask n = byte_at (0xFF ∷ 0xFE ∷ 0xFC ∷ 0xF8 ∷ 0xF0 ∷ 0xE0 ∷ 0xC0 ∷ 0x80 ∷ []) n

unfoldable pub make_lshift_mask : ℕ → ℕ
make_lshift_mask n = byte_at (0xFF ∷ 0x7F ∷ 0x3F ∷ 0x1F ∷ 0x0F ∷ 0x07 ∷ 0x03 ∷ 0x01 ∷ []) n

-- `result[k] |= val`, where `k` is in the result
unfoldable pub or_at : Bytes → ℕ → ℕ → Bytes
or_at result k val = set result k (bit_or (byte_at result k) val)

-- the loop of `RShift` on the bytes from the `i`th on
rshift_loop : Bytes → ℕ → ℕ → ℕ → Bytes → Bytes
rshift_loop [] i bit_shift byte_shift result = result
rshift_loop (x ∷ xs) i bit_shift byte_shift result =
    let mask = make_rshift_mask bit_shift in
    let k = i + byte_shift in
    let val = bit_and x mask / 2 ^ bit_shift in
    let carryval = bit_and x (255 - mask) * 2 ^ (8 - bit_shift) % 256 in
    let moved = if ltb k (length result) then or_at result k val else result in
    rshift_loop xs (suc i) bit_shift byte_shift
      (if ltb (k + 1) (length result) then or_at moved (k + 1) carryval else moved)

-- `RShift`
unfoldable pub rshift : Bytes → ℕ → Bytes
unfolding rshift_loop
rshift x n = rshift_loop x 0 (n % 8) (n / 8) (replicate (length x) 0)

-- the loop of `LShift`, by its index, on the bytes below it
lshift_loop : Bytes → ℕ → ℕ → ℕ → Bytes → Bytes
lshift_loop x zero bit_shift byte_shift result = result
lshift_loop x (suc i) bit_shift byte_shift result =
    let mask = make_lshift_mask bit_shift in
    let k = i - byte_shift in
    let val = bit_and (byte_at x i) mask * 2 ^ bit_shift % 256 in
    let carryval = bit_and (byte_at x i) (255 - mask) / 2 ^ (8 - bit_shift) in
    let moved = or_at result k val in
    lshift_loop x i bit_shift byte_shift (
      if leb byte_shift i
      then (if leb 1 k then or_at moved (k - 1) carryval else moved)
      else result)

-- `LShift`
unfoldable pub lshift : Bytes → ℕ → Bytes
unfolding lshift_loop
lshift x n = lshift_loop x (length x) (n % 8) (n / 8) (replicate (length x) 0)

module _ (b : BigNum) where
  -- `CScriptNum {INT32_MAX}`, of the kind of the other numbers
  abbrev int32_max : Bool → ScriptNum b
  int32_max true = big (b.bint (pos (2 ^ 31 - 1)))
  int32_max false = small (pos (2 ^ 31 - 1))

  -- The loop that shifts by INT32_MAX bits at most at a time. The number is below eight times the
  -- size, so that as many rounds as bytes, and one, are enough.
  shift_loop : ℕ → Bool → (Bytes → ℕ → Bytes) → Bytes → ScriptNum b → StackOp Bytes
  shift_loop zero after f values n = raise other
  shift_loop (suc fuel) after f values n = do
    n' ← num_subtract b n (int32_max after)
    if int_less b (pos 0) n'
        then shift_loop fuel after f (f values (pos_part (getint b n))) n'
        else pure (f values (pos_part (getint b n)))

  -- OP_LSHIFT and OP_RSHIFT, by the function that shifts
  unfoldable pub shift : (Bytes → ℕ → Bytes) → Rules → StackOp (Unit {0})
  unfolding shift_loop
  shift f rules = do
    need 2
    vch1 ← stacktop 2
    top ← stacktop 1
    n ← operand b rules top
    fail_if (less_int b n (pos 0)) ScriptError.invalid_number_range
    pop_back
    pop_back
    values ←
        (if not (less_int b n (pos (length vch1 * 8)))
          then pure (replicate (length vch1) 0)
          else shift_loop (suc (length vch1)) rules.utxo_after_genesis f vch1 n)
    push_back values
