-- ===== src/Script/Instruction/Large.antt =====
-- src/gigamonkey/script/instruction.cpp: a push of more than 65535 bytes is not read back.
use gigamonkey.Base.{
  ℕ, if◌then◌else◌, ◌<◌, ◌≡◌, ◌≢◌, ◌⊎◌, inl, inr, refl, sym, ap, ◌∙◌, List, [], ◌∷◌, ◌++◌, none,
  some, arith, Bool-cases, Option-cases, length, ltb,
}
use gigamonkey.Base.Bytes.{to_little}
use gigamonkey.P2p.VarInt.{Read, read_bytes, ◌>>=◌}
use gigamonkey.Script.Instruction.{
  Instruction, with_data, no_instruction, write, push, sized_push, read, read_push, read_size,
}
use gigamonkey.Script.Opcode.{op_pushdata2, op_pushdata4, op_invalidopcode}

-- the op code that was read, or one given where nothing was
op_of : ℕ → Read Instruction → ℕ
op_of o none = o
op_of o (some (i, r)) = i.op

module _ (past_end : Read ℕ) where
  finished : (o size : ℕ) (r r' : List ℕ) → Read Instruction
  finished o size r r' =
      if ltb (length r') size
      then some (no_instruction, r)
      else (do (d, r'') ← read_bytes past_end size r'; some (with_data o d, r''))

  finished-op :
      (o size : ℕ) (r r' : List ℕ)
      → (op_of o (finished o size r r') ≡ o) ⊎ (op_of o (finished o size r r') ≡ op_invalidopcode)
  unfolding finished op_of
  finished-op o size r r' = elim (Bool-cases (ltb (length r') size)) [
    | inl e ↦ inr (rw e)
    | inr e ↦ elim (Option-cases (read_bytes past_end size r')) [
      | inl e' ↦ inl (rw (e, e', ◌>>=◌))
      | inr ((d, r''), e') ↦ inl (rw (e, e', ◌>>=◌))
    ]
  ]

  read_push-op :
      (o : ℕ) (r : List ℕ)
      → (op_of o (read_push past_end o r) ≡ o)
        ⊎ (op_of o (read_push past_end o r) ≡ op_invalidopcode)
  unfolding read_push op_of finished
  read_push-op o r = elim (Option-cases (read_size past_end o r)) [
    | inl e ↦ inl (rw (e, ◌>>=◌))
    | inr ((size, r'), e) ↦ rw (e, ◌>>=◌) (finished-op o size r r')
  ]

  large-first :
      (d rest : List ℕ)
      → 65535 < length d
      → (r : List ℕ) × (write [] (push d) ++ rest ≡ op_pushdata2 ∷ r)
  unfolding write push sized_push
  large-first [] rest h = absurd (omega (arith, h))
  large-first (x ∷ []) rest h = absurd (omega (arith, h))
  large-first (x ∷ y ∷ d) rest h =
      ((to_little 4 (length (x ∷ y ∷ d)) ++ (x ∷ y ∷ d)) ++ rest, ground (arith, h))

  large-op : (d : List ℕ) → 65535 < length d → (push d).op ≡ op_pushdata4
  unfolding push sized_push
  large-op [] h = absurd (omega (arith, h))
  large-op (x ∷ []) h = absurd (omega (arith, h))
  large-op (x ∷ y ∷ d) h = ground (arith, h)

  opened : (r : List ℕ) (i : Instruction) → op_of op_pushdata2 (some (i, r)) ≡ i.op
  unfolding op_of
  opened r i = refl

  -- The push of more than 65535 bytes, once written, is not read back as it was.
  pub large-read :
      (d rest : List ℕ)
      → 65535 < length d
      → read past_end (write [] (push d) ++ rest) ≢ some (push d, rest)
  unfolding read
  large-read d rest h e =
      let (bytes, first) = large-first d rest h in
      let found : read_push past_end op_pushdata2 bytes ≡ some (push d, rest) =
        sym (ap (read past_end) first) ∙ e in
      let op : op_of op_pushdata2 (read_push past_end op_pushdata2 bytes) ≡ op_pushdata4 =
        ap (op_of op_pushdata2) found ∙ opened rest (push d) ∙ large-op d h in
      elim (read_push-op op_pushdata2 bytes) [
        | inl a ↦ absurd (omega (arith, a, op))
        | inr a ↦ absurd (omega (arith, a, op))
      ]
