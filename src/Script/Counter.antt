-- ===== src/Script/Counter.antt =====
-- include/gigamonkey/script/counter.hpp and src/gigamonkey/script/counter.cpp: the position of the
-- machine in its script. The script is a list of bytes, and a view of its rest is what `drop` leaves.
pub mod Walk
pub mod Compiled
pub mod Same
use gigamonkey.Base.{ℕ, zero, suc, ◌+◌, ◌-◌, ◌%◌, ◌^◌, List, [], ◌∷◌, ◌++◌, Bool, true, false, min}
use gigamonkey.Base.{leb, ltb, ◌==◌, if◌then◌else◌, length, take, drop, ◌&&◌}
use gigamonkey.Base.Bytes.{from_little}
use gigamonkey.Script.Opcode.{
  is_push_data, op_pushsize75, op_pushdata1, op_pushdata2, op_codeseparator,
}

-- `program_counter::read_instruction`: how many bytes the instruction at the front takes. A
-- PUSHDATA4 with too little behind it is its five bytes, where the others take all that is left.
-- `5 + size` is compared as a sum of uint32. Where that wraps around, the source's view ends behind
-- the script, and the model's with it.
unfoldable pub instruction_size : List ℕ → ℕ
instruction_size [] = 0
instruction_size (op ∷ rest) =
    let available = suc (length rest) in
    if leb op op_pushsize75
    then min (op + 1) available
    else if op == op_pushdata1
    then if ltb available 2
      then available
      else if ltb available (2 + from_little (take 1 rest))
      then available
      else 2 + from_little (take 1 rest)
    else if op == op_pushdata2
    then if ltb available 3
      then available
      else if ltb available (3 + from_little (take 2 rest))
      then available
      else 3 + from_little (take 2 rest)
    else if is_push_data op
    then if ltb available 5
      then available
      else if ltb available ((5 + from_little (take 4 rest)) % 2 ^ 32)
      then 5
      else 5 + from_little (take 4 rest)
    else 1

unfoldable pub read_instruction : List ℕ → List ℕ
unfolding instruction_size
read_instruction subscript = take (instruction_size subscript) subscript

-- `program_counter`
pub record ProgramCounter : Type 0 where
  pub next : List ℕ
  pub script : List ℕ
  pub counter : ℕ
  pub last_code_separator : ℕ

-- the constructor
unfoldable pub start : List ℕ → ProgramCounter
start s = record { next = read_instruction s; script = s; counter = 0; last_code_separator = 0 }

-- `Next.size () > 0 && Next[0] == OP_CODESEPARATOR`
unfoldable pub is_code_separator : List ℕ → Bool
is_code_separator [] = false
is_code_separator (op ∷ rest) = op == op_codeseparator

-- `next ()`
unfoldable pub advance : ProgramCounter → ProgramCounter
unfolding is_code_separator
advance p =
    let next_counter = p.counter + length p.next in
    record {
      next = read_instruction (drop next_counter p.script);
      script = p.script;
      counter = next_counter;
      last_code_separator =
          if is_code_separator p.next then next_counter else p.last_code_separator;
    }

-- `script_code ()`
unfoldable pub script_code : ProgramCounter → List ℕ
script_code p = drop p.last_code_separator p.script

-- Two views are equal by their bytes.
unfoldable pub same_bytes : List ℕ → List ℕ → Bool
same_bytes [] [] = true
same_bytes [] (y ∷ ys) = false
same_bytes (x ∷ xs) [] = false
same_bytes (x ∷ xs) (y ∷ ys) = x == y && same_bytes xs ys

-- `find_and_delete`: the instructions of the script code other than the one given. Each round takes
-- a byte at least, so as many rounds as bytes are enough.
unfoldable pub delete_loop : ℕ → ProgramCounter → List ℕ → List ℕ → List ℕ
delete_loop zero p instruction written = written
delete_loop (suc fuel) p instruction written =
    let rest =
      delete_loop fuel (advance p) instruction
        (if same_bytes p.next instruction then written else written ++ p.next) in
    elim p.next [ [] ↦ written | x ∷ xs ↦ rest ]

unfoldable pub find_and_delete : List ℕ → List ℕ → List ℕ
unfolding delete_loop
find_and_delete script_code instruction =
    delete_loop (length script_code) (start script_code) instruction []
