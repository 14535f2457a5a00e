-- ===== src/Script/Instruction/Program.antt =====
-- include/gigamonkey/script/instruction.hpp and src/gigamonkey/script/instruction.cpp: programs, how
-- they are compiled and decompiled, and when they are valid. The top of a stack of ops is its head.
use gigamonkey.Base.{ℕ, zero, suc, ◌+◌, List, [], ◌∷◌, ◌++◌, Option, none, some, Bool, true, false}
use gigamonkey.Base.{◌==◌, ◌!=◌, not, if◌then◌else◌, ◌&&◌, ◌||◌, length, drop, replicate}
use gigamonkey.P2p.VarInt.{Read, ◌>>=◌}
use gigamonkey.Script.Error.{ScriptError}
use gigamonkey.Script.Flags.{
  has, script_genesis, script_utxo_after_genesis, script_verify_minimaldata,
}
use gigamonkey.Script.Instruction.{
  Instruction, write, is_ok, verify, is_minimal, with_data, serialized_size, read,
}
use gigamonkey.Script.Opcode.{is_push_op, op_0, op_if, op_notif, op_else, op_endif, op_return}

abbrev pub Program : Type 0
Program = List Instruction

abbrev pub Control : Type 0
Control = List ℕ

abbrev pub is_empty {ℓ} : {A : Type ℓ} → List A → Bool
is_empty [] = true
is_empty (x ∷ xs) = false

-- `script_writer << program`
unfoldable pub write_program : List ℕ → Program → List ℕ
write_program w [] = w
write_program w (i ∷ p) = write_program (write w i) p

-- `serialized_size (program)`
unfoldable pub program_size : Program → ℕ
program_size [] = 0
program_size (i ∷ p) = serialized_size i + program_size p

-- A buffer of zeros with what is written over its beginning.
unfoldable pub over_zeros : ℕ → List ℕ → List ℕ
over_zeros size written = written ++ drop (length written) (replicate size 0)

-- `compile (program)` and `compile (instruction)`
unfoldable pub compile : Program → List ℕ
compile p = over_zeros (program_size p) (write_program [] p)

unfoldable pub compile_instruction : Instruction → List ℕ
compile_instruction i = over_zeros (serialized_size i) (write [] i)

-- `is_push (program)`
unfoldable pub is_push_program : Program → Bool
is_push_program [] = true
is_push_program (i ∷ p) = is_push_op i.op && is_push_program p

-- What an op does to the stack of open branches, where it may stand: an ENDIF takes an ELSE and the
-- IF below it.
close_if : Control → Option Control
close_if [] = none
close_if (prev ∷ x) = if prev != op_if && prev != op_notif then none else some x

close : Control → Option Control
close [] = none
close (prev ∷ x) = if prev == op_else then close_if x else close_if (prev ∷ x)

unfoldable pub nest : ℕ → Control → Option Control
unfolding close close_if
nest o x =
    if o == op_endif
    then close x
    else if o == op_else || (o == op_if || o == op_notif)
    then some (o ∷ x)
    else some x

module _ (past_end : Read ℕ) where
  -- `decompile`: its loop takes a byte at least in each round. An OP_RETURN outside of any branch
  -- takes the rest of the script, and a bad script is the empty program.
  unfoldable pub decompile_loop : ℕ → List ℕ → Control → Program → Option Program
  decompile_loop zero r control p = none
  decompile_loop (suc fuel) [] control p = some p
  decompile_loop (suc fuel) (b ∷ bs) control p = do
    (i, r) ← read past_end (b ∷ bs)
    if not (is_ok (verify i 0))
        then some []
        else if i.op == op_return && is_empty control
        then some (p ++ (with_data op_return r ∷ []))
        else elim (nest i.op control) [
          | none ↦ some []
          | some control' ↦ decompile_loop fuel r control' (p ++ (i ∷ []))
        ]

  unfoldable pub decompile : List ℕ → Option Program
  unfolding decompile_loop
  decompile b = decompile_loop (suc (length b)) b [] []

-- the part of `valid_program` on OP_RETURN: the result, where it is one
unfoldable pub return_check : Instruction → Program → Control → ℕ → Option ScriptError
return_check i p x flags =
    if i.op != op_return
    then none
    else if not (has flags script_utxo_after_genesis)
    then some ScriptError.op_return
    else if is_empty x && is_empty p
    then some ScriptError.ok
    else if length i.payload != 0
    then some ScriptError.op_return
    else none

-- `valid_program`
unfoldable pub valid_program : Program → Control → ℕ → ScriptError
unfolding return_check
valid_program [] x flags = if is_empty x then ScriptError.ok else ScriptError.unbalanced_conditional
valid_program (i ∷ p) x flags =
    if not (is_ok (verify i flags))
    then verify i flags
    else if has flags script_verify_minimaldata && not (is_minimal i)
    then ScriptError.minimal_data
    else elim (return_check i p x flags) [
      | some e ↦ e
      | none ↦ elim (nest i.op x) [
        | none ↦ ScriptError.unbalanced_conditional
        | some x' ↦ valid_program p x' flags
      ]
    ]

-- `verify (program)`
is_return_data : Program → Bool
is_return_data (i ∷ j ∷ []) = i.op == op_0 && (is_ok (verify i 0) && j.op == op_return)
is_return_data _ = false

is_return : Program → Bool
is_return (i ∷ []) = i.op == op_return
is_return _ = false

unfoldable pub verify_program : Program → ℕ → ScriptError
unfolding is_return_data is_return
verify_program p flags =
    if has flags script_utxo_after_genesis && not (has flags script_genesis)
    then ScriptError.impossible_encoding
    else if is_empty p
    then ScriptError.ok
    else if (if has flags script_genesis && has flags script_utxo_after_genesis
        then is_return_data p
        else is_return p)
    then ScriptError.ok
    else valid_program p [] flags
