-- ===== src/Script/Instruction/RoundTrip.antt =====
-- src/gigamonkey/script/instruction.cpp: what `compile` puts out, and that `decompile` takes it back.
use gigamonkey.Base.{
  ℕ, zero, suc, ◌%◌, ◌^◌, ◌<◌, ◌≤◌, ◌≡◌, refl, ap, sym, ◌∙◌, List, [], ◌∷◌, ◌++◌, false, ◌==◌, ◌&&◌,
  some,
}
use gigamonkey.Base.{
  arith, length, All, length-append, append_assoc, append-nil, length-zero, ltb, inl, inr,
}
use gigamonkey.Base.Bytes.{to_little}
use gigamonkey.P2p.VarInt.{Read}
use gigamonkey.P2p.VarInt.RoundTrip.{read_bytes-append, read_little-to_little}
use gigamonkey.Script.Error.{ScriptError}
use gigamonkey.Script.Instruction.{
  Instruction, with_data, write, read, read_push, read_size, verify,
}
use gigamonkey.Script.Instruction.Program.{
  Program, Control, is_empty, compile, nest, decompile_loop, decompile,
}
use gigamonkey.Script.Opcode.{op_return, op_pushdata1, op_pushdata2}
use gigamonkey.Script.Instruction.Encodings.{
  IsWritable, kinds, IsNested, encodings, write-cons, verify-zero, length-encodings,
  compile-encodings,
}

not_less : (a b : ℕ) → b ≤ a → ltb a b ≡ false
not_less a b h = ground arith

module _ (past_end : Read ℕ) where
  read_push-data :
      (o : ℕ) (header d rest : List ℕ)
      → read_size past_end o (header ++ (d ++ rest)) ≡ some (length d, d ++ rest)
      → read_push past_end o (header ++ (d ++ rest)) ≡ some (with_data o d, rest)
  unfolding read_push
  read_push-data o header d rest h = rw (
    h,
    not_less (length (d ++ rest)) (length d) (omega (arith, length-append d rest)),
    read_bytes-append,
  )

  read_size-short :
      (d rest : List ℕ)
      → length d ≤ 75
      → read_size past_end (length d) (d ++ rest) ≡ some (length d, d ++ rest)
  unfolding read_size
  read_size-short d rest h = ground arith

  read_size-one :
      (d rest : List ℕ)
      → length d < 256
      → read_size past_end op_pushdata1 (to_little 1 (length d) ++ (d ++ rest))
        ≡ some (length d, d ++ rest)
  unfolding read_size to_little
  read_size-one d rest h = let small : length d % 256 ≡ length d = omega (arith, h) in rw small refl

  read_size-two :
      (d rest : List ℕ)
      → length d < 2 ^ 16
      → read_size past_end op_pushdata2 (to_little 2 (length d) ++ (d ++ rest))
        ≡ some (length d, d ++ rest)
  unfolding read_size
  read_size-two d rest h = read_little-to_little past_end 2 (length d) (d ++ rest) h

  -- An instruction is read back from its bytes, and what follows them is left.
  pub read-write_one :
      (i : Instruction) (rest : List ℕ)
      → IsWritable i
      → read past_end (write [] i ++ rest) ≡ some (i, rest)
  unfolding read write
  read-write_one i rest w =
      let o = i.op in
      let d = i.payload in
      elim (kinds i w) [
        | inl (short, e) ↦ ground (
          arith,
          e,
          read_push-data o [] d rest (rw e (read_size-short d rest (omega (arith, e, short)))),
        )
        | inr (inl (e, h)) ↦ ground (
          arith,
          e,
          append_assoc (to_little 1 (length d)) d rest,
          read_push-data op_pushdata1 (to_little 1 (length d)) d rest (read_size-one d rest h),
        )
        | inr (inr (inl (e, h))) ↦ ground (
          arith,
          e,
          append_assoc (to_little 2 (length d)) d rest,
          read_push-data op_pushdata2 (to_little 2 (length d)) d rest (read_size-two d rest h),
        )
        | inr (inr (inr (e, h))) ↦ ground (arith, e, length-zero d h)
      ]

  decompile_loop-step :
      (fuel : ℕ) (bs r : List ℕ) (b : ℕ) (x x' : Control) (acc : Program) (i : Instruction)
      → read past_end (b ∷ bs) ≡ some (i, r)
      → verify i 0 ≡ ScriptError.ok
      → (i.op == op_return && is_empty x) ≡ false
      → nest i.op x ≡ some x'
      → decompile_loop past_end (suc fuel) (b ∷ bs) x acc
        ≡ decompile_loop past_end fuel r x' (acc ++ (i ∷ []))
  unfolding decompile_loop
  decompile_loop-step fuel bs r b x x' acc i hr hv ho hn = rw (hr, hv, ho, hn)

  decompile_loop-encodings :
      (fuel : ℕ) (p acc : Program) (x : Control)
      → All IsWritable p
      → IsNested x p
      → length p < fuel
      → decompile_loop past_end fuel (encodings p) x acc ≡ some (acc ++ p)
  unfolding decompile_loop
  decompile_loop-encodings zero p acc x w n h = absurd (omega (arith, h))
  decompile_loop-encodings (suc fuel) [] acc x w n h = ap some (sym (append-nil acc))
  decompile_loop-encodings (suc fuel) (i ∷ p) acc x (wi, w) (ho, rest) h =
      let (x', hn, n) = rest in
      let (b, bs, first) = write-cons i in
      ap (λ t. decompile_loop past_end (suc fuel) (t ++ encodings p) x acc) first
      ∙ decompile_loop-step fuel (bs ++ encodings p) (encodings p) b x x' acc i
          (ap (λ t. read past_end (t ++ encodings p)) (sym first)
            ∙ read-write_one i (encodings p) wi)
          (verify-zero i wi.0) ho hn
      ∙ decompile_loop-encodings fuel p (acc ++ (i ∷ [])) x' w n (omega (arith, h))
      ∙ ap some (append_assoc acc (i ∷ []) p)

  -- `decompile` reads back what `compile` wrote, and has fuel enough for it, for a program whose
  -- instructions are valid, without OP_PUSHDATA4 and without data too long for their length fields,
  -- whose branches are closed in order, and which has an OP_RETURN only inside of them.
  pub decompile-compile :
      (p : Program) → All IsWritable p → IsNested [] p → decompile past_end (compile p) ≡ some p
  unfolding decompile
  decompile-compile p w n =
      ap (λ b. decompile past_end b) (compile-encodings p w)
      ∙ decompile_loop-encodings (suc (length (encodings p))) p [] [] w n
          (omega (arith, length-encodings p))
