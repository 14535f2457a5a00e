-- ===== src/Script/Instruction.antt =====
-- include/gigamonkey/script/instruction.hpp and src/gigamonkey/script/instruction.cpp: the
-- instructions of a script, their bytes, and the programs that they make up.
pub mod Program
pub mod Push
pub mod Size
pub mod Encodings
pub mod Valid
pub mod Large
pub mod RoundTrip
use gigamonkey.Base.{
  ℕ, zero, suc, ◌+◌, ◌-◌, ◌%◌, ◌^◌, List, [], ◌∷◌, ◌++◌, Option, none, some, Bool, true, false,
}
use gigamonkey.Base.{leb, ltb, ◌==◌, ◌!=◌, not, if◌then◌else◌, ◌&&◌, ◌||◌, length}
use gigamonkey.Base.Bytes.{to_little}
use gigamonkey.P2p.VarInt.{Read, ◌>>=◌, next, read_bytes, read_little}
use gigamonkey.Script.Error.{ScriptError}
use gigamonkey.Script.Flags.{has, script_verify_minimaldata}
use gigamonkey.Script.Opcode.{
  is_push_op, is_push_data, first_undefined_op_value, op_invalidopcode, op_reserved, op_0,
  op_pushsize75, op_pushdata1, op_pushdata2, op_pushdata4, op_1negate, op_return,
}

-- `instruction`: `payload` is its `Data`.
pub record Instruction : Type 0 where
  pub op : ℕ
  pub payload : List ℕ

-- the constructors of an op code, and of no instruction
abbrev pub op_code : ℕ → Instruction
op_code o = record { op = o; payload = [] }

abbrev pub with_data : ℕ → List ℕ → Instruction
with_data o d = record { op = o; payload = d }

abbrev pub no_instruction : Instruction
no_instruction = record { op = op_invalidopcode; payload = [] }

-- `writer << instruction`. A push of four bytes of length begins with OP_PUSHDATA2.
unfoldable pub write : List ℕ → Instruction → List ℕ
write w i =
    if is_push_data i.op
    then (if leb i.op op_pushsize75
        then w ++ (i.op ∷ [])
        else if i.op == op_pushdata1
        then w ++ (op_pushdata1 ∷ to_little 1 (length i.payload))
        else if i.op == op_pushdata2
        then w ++ (op_pushdata2 ∷ to_little 2 (length i.payload))
        else w ++ (op_pushdata2 ∷ to_little 4 (length i.payload)))
      ++ i.payload
    else w ++ (i.op ∷ [])

abbrev pub is_ok : ScriptError → Bool
is_ok e = elim e [ ScriptError.ok ↦ true | _ ↦ false ]

-- `verify_instruction`, whose last test no size passes
unfoldable pub verify_instruction : Instruction → ScriptError
verify_instruction i =
    if i.op == op_invalidopcode || (i.op == op_reserved || leb first_undefined_op_value i.op)
    then ScriptError.bad_opcode
    else if not (is_push_data i.op)
    then (if ltb 0 (length i.payload) then ScriptError.push_size else ScriptError.ok)
    else if leb i.op op_pushsize75 && (i.op != length i.payload)
        || (i.op == op_pushdata1 && ltb 0xffff (length i.payload)
            || (i.op == op_pushdata2 && ltb 0xffff_ffff (length i.payload)
                || i.op == op_pushdata4 && ltb 0xffff_ffff_ffff_ffff (length i.payload)))
    then ScriptError.push_size
    else ScriptError.ok

-- `data.size () == 1 && (data[0] == 0x81 || (data[0] >= 1 && data[0] <= 16))`
unfoldable pub has_own_op : List ℕ → Bool
has_own_op [] = false
has_own_op (x ∷ []) = x == 0x81 || (leb 1 x && leb x 16)
has_own_op (x ∷ y ∷ d) = false

unfoldable pub is_minimal_push : ℕ → List ℕ → Bool
is_minimal_push o d =
    if not (is_push_data o)
    then length d == 0
    else if has_own_op d
    then false
    else if o == op_pushdata1
    then ltb 75 (length d)
    else if o == op_pushdata2
    then ltb 256 (length d)
    else if o == op_pushdata4
    then ltb 65536 (length d)
    else true

-- `instruction::verify`
unfoldable pub verify : Instruction → ℕ → ScriptError
unfolding verify_instruction is_minimal_push
verify i flags =
    if not (is_ok (verify_instruction i))
    then verify_instruction i
    else if has flags script_verify_minimaldata && not (is_minimal_push i.op i.payload)
    then ScriptError.minimal_data
    else ScriptError.ok

-- `is_minimal (const instruction &)`
unfoldable pub is_minimal : Instruction → Bool
is_minimal i = is_ok (verify_instruction i) && is_minimal_push i.op i.payload

-- `instruction::push`. The size is an `int`, which holds the lengths below 2 ^ 31.
sized_push : List ℕ → Instruction
sized_push d =
    if leb (length d) 0x4b
    then with_data (length d) d
    else if leb (length d) 0xff
    then with_data op_pushdata1 d
    else if leb (length d) 0xffff
    then with_data op_pushdata2 d
    else with_data op_pushdata4 d

unfoldable pub push : List ℕ → Instruction
unfolding sized_push
push [] = op_code op_0
push (x ∷ []) =
    if x == 0x81
    then op_code op_1negate
    else if leb 0x01 x && leb x 0x10
    then op_code (x + 0x50)
    else sized_push (x ∷ [])
push (x ∷ y ∷ d) = sized_push (x ∷ y ∷ d)

-- `instruction::data`
unfoldable pub data_of : Instruction → List ℕ
data_of i =
    if is_push_data i.op || i.op == op_return
    then i.payload
    else if not (is_push_op i.op)
    then []
    else if i.op == op_1negate
    then 0x81 ∷ []
    else (i.op - 0x50) ∷ []

-- `instruction::serialized_size`, a uint32
unfoldable pub serialized_size : Instruction → ℕ
serialized_size i =
    if i.op == op_return
    then (length i.payload + 1) % 2 ^ 32
    else if not (is_push_data i.op)
    then 1
    else if leb i.op op_pushsize75
    then (length i.payload + 1) % 2 ^ 32
    else if i.op == op_pushdata1
    then (length i.payload + 2) % 2 ^ 32
    else if i.op == op_pushdata2
    then (length i.payload + 3) % 2 ^ 32
    else if i.op == op_pushdata4
    then (length i.payload + 5) % 2 ^ 32
    else 0

-- `instruction::min_push_size`
unfoldable pub min_push_size : List ℕ → ℕ
min_push_size b =
    if length b == 0 || has_own_op b
    then 1
    else if ltb (length b) 75
    then length b + 1
    else if ltb (length b) 0xff
    then length b + 2
    else if ltb (length b) 0xffff
    then length b + 3
    else length b + 5

module _ (past_end : Read ℕ) where
  -- the length that `read_push` reads, for an op that pushes data
  read_size : ℕ → List ℕ → Read ℕ
  read_size o r =
      if leb o op_pushsize75
      then some (o, r)
      else if o == op_pushdata1
      then next past_end r
      else if o == op_pushdata2
      then read_little past_end 2 r
      else read_little past_end 4 r

  -- `read_push`
  unfoldable pub read_push : ℕ → List ℕ → Read Instruction
  unfolding read_size
  read_push o r = do
    (size, r') ← read_size o r
    if ltb (length r') size
        then some (no_instruction, r)
        else (do (d, r'') ← read_bytes past_end size r'; some (with_data o d, r''))

  -- `script_reader >> instruction`
  unfoldable pub read : List ℕ → Read Instruction
  unfolding read_push
  read [] = some (no_instruction, [])
  read (o ∷ r) = if is_push_data o then read_push o r else some (op_code o, r)
