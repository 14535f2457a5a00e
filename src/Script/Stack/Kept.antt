-- ===== src/Script/Stack/Kept.antt =====
-- include/gigamonkey/script/stack.hpp: the memory of the two stacks, after operations that change the
-- size of an element.
use gigamonkey.Base.{ℕ, ◌<◌, ◌^◌}
use gigamonkey.Script.Action.{final, Ensures-final}
use gigamonkey.Script.Stack.{
  Bytes, Stacks, push_back, append_to_top, pad_right, minimally_encode_top, erase_range,
}
use gigamonkey.Script.Stack.Counted.{
  append_to_top-Keeps, pad_right-Keeps, minimally_encode_top-Keeps,
}
use gigamonkey.Script.Stack.Erased.{erase_range-Keeps}
use gigamonkey.Script.Stack.Memory.{WellCounted, IsSize, push_back-Keeps}

-- `push_back` of an element whose size is an int64 keeps the memory counted and within its limit,
-- whether it is pushed or refused.
pub push_back-WellCounted :
    (v : Bytes) (s : Stacks) → IsSize v → WellCounted s → WellCounted (final (push_back v s))
push_back-WellCounted v s h i = Ensures-final (push_back v s) (push_back-Keeps v h s i)

-- `append` of bytes whose size is an int64 keeps the memory counted and within its limit.
pub append_to_top-WellCounted :
    (v : Bytes) (s : Stacks) → IsSize v → WellCounted s → WellCounted (final (append_to_top v s))
append_to_top-WellCounted v s h i = Ensures-final (append_to_top v s) (append_to_top-Keeps v h s i)

-- `padRight` to a size that is an int64 keeps the memory counted and within its limit.
pub pad_right-WellCounted :
    (size signbit : ℕ) (s : Stacks)
    → size < 2 ^ 63
    → WellCounted s
    → WellCounted (final (pad_right size signbit s))
pad_right-WellCounted size signbit s h i =
    Ensures-final (pad_right size signbit s) (pad_right-Keeps size signbit h s i)

-- `MinimallyEncode` of the top element keeps the memory counted and within its limit.
pub minimally_encode_top-WellCounted :
    (s : Stacks) → WellCounted s → WellCounted (final (minimally_encode_top s))
minimally_encode_top-WellCounted s i =
    Ensures-final (minimally_encode_top s) (minimally_encode_top-Keeps s i)

-- `erase` of a range, refused or not, keeps the memory counted and within its limit.
pub erase_range-WellCounted :
    (first last : ℕ) (s : Stacks) → WellCounted s → WellCounted (final (erase_range first last s))
erase_range-WellCounted first last s i =
    Ensures-final (erase_range first last s) (erase_range-Keeps first last s i)
