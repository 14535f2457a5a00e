-- ===== src/Script/Pattern.antt =====
-- include/gigamonkey/script/pattern.hpp and src/gigamonkey/script/pattern.cpp: patterns of scripts, and
-- how they are scanned. A pattern that reads data does so into a slot, which stands for the reference it
-- has; the slots keep what was read, the latest first. Whether data is a number is the data library's
-- affair, and is the parameter `is_value`.
pub mod Compiled
pub mod Endless
use gigamonkey.Base.{
  ℕ, zero, suc, ◌+◌, ◌%◌, ◌^◌, List, [], ◌∷◌, Option, none, some, Bool, true, false,
}
use gigamonkey.Base.{ltb, leb, ◌==◌, ◌!=◌, not, ◌&&◌, if◌then◌else◌, length, take, drop}
use gigamonkey.Base.Bytes.{from_little}
use gigamonkey.Base.Int.{ℤ}
use gigamonkey.P2p.VarInt.{Read}
use gigamonkey.Script.Counter.{same_bytes}
use gigamonkey.Script.Instruction.{Instruction, read, data_of}
use gigamonkey.Script.Opcode.{
  is_push_op, is_push_data, op_invalidopcode, op_pushsize75, op_pushdata1, op_pushdata2, op_return,
}

-- `next_instruction_size`, of a view that is not empty; a uint32
unfoldable pub next_instruction_size : List ℕ → ℕ
next_instruction_size [] = 0
next_instruction_size (op ∷ o) =
    if op == op_invalidopcode
    then 0
    else if not (is_push_data op)
    then 1
    else if leb op op_pushsize75
    then op + 1
    else if op == op_pushdata1
    then if ltb (length o) 1 then 0 else from_little (take 1 o) + 2
    else if op == op_pushdata2
    then if ltb (length o) 2 then 0 else from_little (take 2 o) + 3
    else if ltb (length o) 4
    then 0
    else (from_little (take 4 o) + 5) % 2 ^ 32

pub data Directive : Type 0 where
  exactly : Directive
  or_more : Directive
  or_less : Directive

-- `push::type`, with what it holds
pub data PushType : Type 0 where
  any_push : PushType
  push_value : ℤ → PushType
  push_data : List ℕ → PushType
  push_read : ℕ → PushType

mutual
  pub data Pattern : Type 0 where
    nothing : Pattern
    any : Pattern
    atom : Instruction → Pattern
    text : List ℕ → Pattern
    push : PushType → Pattern
    push_size : ℕ → Option ℕ → Pattern
    repeated : Pattern → ℕ → Option ℕ → Directive → Pattern
    optional : Pattern → Pattern
    sequence : Patterns → Pattern
    alternatives : Patterns → Pattern
    op_return_data : Pattern → Pattern

  pub data Patterns : Type 0 where
    nil : Patterns
    cons : Pattern → Patterns → Patterns

-- the slots that were read
abbrev pub Slots : Type 0
Slots = List (ℕ × List ℕ)

-- What a scan comes to: the rest of the script, the exception `fail`, any other, or a loop without end.
pub data Scan : Type 0 where
  matched : List ℕ → Slots → Scan
  fails : Slots → Scan
  throws : Slots → Scan
  endless : Scan

-- `==` of instructions
unfoldable pub same_instruction : Instruction → Instruction → Bool
same_instruction a b = a.op == b.op && same_bytes a.payload b.payload

-- `p.substr (size)`
unfoldable pub after : ℕ → List ℕ → Slots → Scan
after size p s = if ltb (length p) size then throws s else matched (drop size p) s

-- `any::scan` and `string::scan`
unfoldable pub scan_any : List ℕ → Slots → Scan
scan_any p s =
    if length p == 0
    then fails s
    else if ltb (length p) (next_instruction_size p)
    then fails s
    else after (next_instruction_size p) p s

unfoldable pub scan_text : List ℕ → List ℕ → Slots → Scan
scan_text c p s =
    if ltb (length p) (length c)
    then fails s
    else if same_bytes (take (length c) p) c
    then after (length c) p s
    else fails s

-- the head of a view
unfoldable pub begins : List ℕ → ℕ → Bool
begins [] op = false
begins (b ∷ p) op = b == op

-- what is kept of a match
unfoldable pub keep : Option ℕ → List ℕ → Slots → Slots
keep none d s = s
keep (some r) d s = (r, d) ∷ s

-- `push::match` and `push_size::match`, with the slots that they leave
unfoldable pub push_match : (ℤ → List ℕ → Bool) → PushType → Instruction → Slots → Bool × Slots
push_match is_value any_push i s = (is_push_op i.op, s)
push_match is_value (push_value v) i s = (is_push_op i.op && is_value v (data_of i), s)
push_match is_value (push_data d) i s = (is_push_op i.op && same_bytes d (data_of i), s)
push_match is_value (push_read r) i s =
    if is_push_op i.op then (true, keep (some r) (data_of i) s) else (false, s)

unfoldable pub push_size_match : ℕ → Option ℕ → Instruction → Slots → Bool × Slots
push_size_match n r i s =
    if length (data_of i) != n then (false, s) else (true, keep r (data_of i) s)

-- the bounds of `repeated::scan`; -1 is none
unfoldable pub least : ℕ → Option ℕ → Directive → ℕ
least first none or_less = 0
least first none exactly = first
least first none or_more = first
least first (some n) d = first

unfoldable pub most : ℕ → Option ℕ → Directive → Option ℕ
most first (some n) d = some n
most first none or_more = none
most first none exactly = some first
most first none or_less = some first

unfoldable pub reaches : ℕ → Option ℕ → Bool
reaches m none = false
reaches m (some n) = m == n

-- one round of the loop of `repeated::scan`, from the scan of its pattern on
unfoldable pub round : ℕ → Option ℕ → ℕ → List ℕ → Scan → (ℕ → List ℕ → Slots → Scan) → Scan
round lo hi matches p (matched r s) others =
    let m = (matches + 1) % 2 ^ 32 in if reaches m hi then matched r s else others m r s
round lo hi matches p (fails s) others = if ltb matches lo then fails s else matched p s
round lo hi matches p (throws s) others = throws s
round lo hi matches p endless others = endless

-- the loop of `repeated::scan`, for a pattern that `f` scans
unfoldable pub repeat : (List ℕ → Slots → Scan) → ℕ → Option ℕ → ℕ → ℕ → List ℕ → Slots → Scan
repeat f lo hi zero matches p s = endless
repeat f lo hi (suc fuel) matches p s = round lo hi matches p (f p s) (repeat f lo hi fuel)

-- what `optional::scan` and `alternatives::scan` do where a scan fails
unfoldable pub or_else : Scan → (Slots → Scan) → Scan
or_else (matched r s) g = matched r s
or_else (fails s) g = g s
or_else (throws s) g = throws s
or_else endless g = endless

-- what `sequence::scan` does where a scan has matched
unfoldable pub and_then : Scan → (List ℕ → Slots → Scan) → Scan
and_then (matched r s) g = g r s
and_then (fails s) g = fails s
and_then (throws s) g = throws s
and_then endless g = endless

module _ (past_end : Read ℕ) (is_value : ℤ → List ℕ → Bool) (fuel : ℕ) where
  -- the instruction that a view begins with, and what a test of it leaves; a read that throws is not a
  -- `fail`
  unfoldable pub scan_instruction : (Instruction → Slots → Bool × Slots) → List ℕ → Slots → Scan
  scan_instruction test p s =
      let size = next_instruction_size p in
      elim (read past_end (take size p)) [
        | none ↦ throws s
        | some (i, r) ↦ let (found, s') = test i s in if found then after size p s' else fails s'
      ]

  unfoldable pub scan_atom : Instruction → List ℕ → Slots → Scan
  scan_atom i p s =
      if not (begins p i.op)
      then fails s
      else if ltb (length p) (next_instruction_size p)
      then fails s
      else scan_instruction (λ j s. (same_instruction i j, s)) p s

  unfoldable pub scan_push : PushType → List ℕ → Slots → Scan
  scan_push t p s =
      if length p == 0
      then fails s
      else if next_instruction_size p == 0
      then fails s
      else scan_instruction (push_match is_value t) p s

  unfoldable pub scan_push_size : ℕ → Option ℕ → List ℕ → Slots → Scan
  scan_push_size n r p s =
      if length p == 0 then fails s else scan_instruction (push_size_match n r) p s

  unfoldable mutual
    -- `scan`
    pub scan : Pattern → List ℕ → Slots → Scan
    scan nothing p s = matched p s
    scan any p s = scan_any p s
    scan (atom i) p s = scan_atom i p s
    scan (text c) p s = scan_text c p s
    scan (push t) p s = scan_push t p s
    scan (push_size n r) p s = scan_push_size n r p s
    scan (repeated q first second d) p s =
        repeat (scan q) (least first second d) (most first second d) fuel 0 p s
    scan (optional q) p s = or_else (scan q p s) (λ s'. matched p s')
    scan (sequence qs) p s = scan_sequence qs p s
    scan (alternatives qs) p s = scan_alternatives qs p s
    scan (op_return_data q) p s = if begins p op_return then scan q (drop 1 p) s else fails s

    -- `sequence::scan`
    pub scan_sequence : Patterns → List ℕ → Slots → Scan
    scan_sequence nil p s = matched p s
    scan_sequence (cons q qs) p s = and_then (scan q p s) (scan_sequence qs)

    -- `alternatives::scan`
    pub scan_alternatives : Patterns → List ℕ → Slots → Scan
    scan_alternatives nil p s = fails s
    scan_alternatives (cons q qs) p s = or_else (scan q p s) (scan_alternatives qs p)

  -- `match`, which only catches `fail`
  unfoldable pub match : Pattern → List ℕ → Slots → Option Bool
  match q b s = elim (scan q b s) [
    | matched r s' ↦ some (length r == 0)
    | fails s' ↦ some false
    | throws s' ↦ none
    | endless ↦ none
  ]
