-- ===== src/Script/Instruction/Push.antt =====
-- src/gigamonkey/script/instruction.cpp: the instruction that pushes given bytes.
use gigamonkey.Base.{ℕ, ◌^◌, ◌<◌, ◌≤◌, ◌≡◌, ◌≢◌, refl, List, [], ◌∷◌, true, ◌↔◌}
use gigamonkey.Base.{arith, length}
use gigamonkey.Script.Error.{ScriptError}
use gigamonkey.Script.Instruction.{
  push, sized_push, data_of, is_minimal, has_own_op, is_minimal_push, verify_instruction,
  serialized_size, min_push_size,
}

-- The instruction that `push` makes of bytes pushes those bytes.
pub data_of-push : (d : List ℕ) → data_of (push d) ≡ d
unfolding data_of push sized_push
data_of-push [] = refl
data_of-push (x ∷ []) = ground arith
data_of-push (x ∷ y ∷ d) = ground arith

-- The instruction that `push` makes of fewer than 2 ^ 31 bytes is a valid one.
pub push-verify : (d : List ℕ) → length d < 2 ^ 31 → verify_instruction (push d) ≡ ScriptError.ok
unfolding verify_instruction push sized_push
push-verify [] h = refl
push-verify (x ∷ []) h = ground arith
push-verify (x ∷ y ∷ d) h = ground arith

-- It is also minimal, save where the bytes are 256 or 65536, which OP_PUSHDATA1 or OP_PUSHDATA2
-- cannot push and `is_minimal_push` refuses to the next one.
pub push-is_minimal :
    (d : List ℕ)
    → length d < 2 ^ 31
    → (is_minimal (push d) ≡ true) ↔ ((length d ≢ 256) × (length d ≢ 65536))
unfolding is_minimal is_minimal_push has_own_op push sized_push verify_instruction
push-is_minimal [] h = ground arith
push-is_minimal (x ∷ []) h = ground arith
push-is_minimal (x ∷ y ∷ d) h = ground arith

-- `min_push_size` is the size of the push, save at 75, 255 and 65535 bytes, where it is larger.
pub min_push_size-serialized_size :
    (d : List ℕ)
    → length d < 2 ^ 31
    → (serialized_size (push d) ≤ min_push_size d)
      × ((min_push_size d ≡ serialized_size (push d))
          ↔ ((length d ≢ 75) × (length d ≢ 255) × (length d ≢ 65535)))
unfolding serialized_size min_push_size has_own_op push sized_push
min_push_size-serialized_size [] h = ground arith
min_push_size-serialized_size (x ∷ []) h = ground arith
min_push_size-serialized_size (x ∷ y ∷ d) h = ground arith
