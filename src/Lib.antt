-- ===== src/Lib.antt =====
-- Gigamonkey: the script machine of the Bitcoin library, with the numbers, stacks, instructions and
-- limits that it stands on, its transactions and blocks, what signatures sign, Merkle trees and work.
--
-- The parts, and how they work together:
-- - P2p/VarInt.antt: numbers of one to nine bytes (include/gigamonkey/p2p/var_int.hpp,
--   src/gigamonkey/p2p/var_int.cpp). A writer is the bytes written, a reader the bytes left.
-- - Sv/IntSerialization.antt: `serialize`, `deserialize`, `IsMinimallyEncoded` and `MinimallyEncode`
--   of include/sv/script/int_serialization.h.
-- - Sv/ScriptNum.antt: `CScriptNum` (include/sv/script/script_num.h, src/sv/script/script_num.cpp),
--   an int64 or a big integer. Big integers are OpenSSL's: the record `BigNum` of Sv/BigNum.antt
--   is a parameter, and `BigNumLaws` is what is documented of them.
-- - Sv/Config.antt: the limits `script_config` (src/sv/config.cpp).
-- - Script/Stack.antt: `LimitedStack` (include/gigamonkey/script/stack.hpp). The record `Stacks` is the
--   stack and its child with the memory that both use; an operation is an `Action` of
--   Script/Action.antt, which ends in a value, an early return or an exception.
-- - Script/Instruction.antt and Script/Instruction/Program.antt: instructions and programs
--   (src/gigamonkey/script/instruction.cpp): `write`, `read`, `push`, `verify`, `compile`, `decompile`,
--   `valid_program`. `data_of` is `instruction::data`, and `nest` is what both loops do with
--   the stack of open branches.
-- - Script/Counter.antt: `program_counter` and `find_and_delete` (src/gigamonkey/script/counter.cpp).
-- - Script/Pattern.antt: patterns of scripts and their scan (src/gigamonkey/script/pattern.cpp).
-- - Script/Document.antt: the redemption document, lock times (src/gigamonkey/script/script.cpp) and
--   `verify_signature`; secp256k1 and the hash of what is signed are the parameter `Signatures`.
-- - Script/Machine: the machine (src/gigamonkey/script/machine.cpp and, for what it leaves to
--   `EvalScript`, src/sv/script/interpreter.cpp). StackOps, Bitwise, Numeric, Spans, Shifts, Control
--   and Crypto have a function for each case of the two switches; State is `machine::state`; Step is
--   `machine::state::step`, with the switch as a table, and `state_run`; Evaluate is `machine`.
--   State/Frame names the fields that the cases of the switches leave alone. The hash functions are
--   the parameter `Hashes`.
-- - Merkle: trees of hashes (src/gigamonkey/merkle.cpp, include/gigamonkey/merkle). Proof has leaves,
--   branches and proofs; Rounds `round` and `root`; Tree `tree` and `check_tree`; Server `server`;
--   Dual `dual` and `check_proofs`. SHA-256 is a parameter, and `IsMerkle` of Tree/Levels.antt is
--   what a tree of hashes is.
-- - Timechain: transactions, headers and blocks (include/gigamonkey/timechain.hpp,
--   src/gigamonkey/timechain.cpp): how they are written, read and measured, when they are valid, and
--   Views, what is seen of serialized ones. They stand on VarInt, and on Merkle for the root of a block.
-- - Sighash.antt: what a signature signs, by the original algorithm and by `Amaury::write`
--   (include/gigamonkey/sighash.hpp, src/gigamonkey/sighash.cpp), over the documents of Script/Document.
-- - Ledger.antt: transactions with the outputs that they redeem (include/gigamonkey/ledger.hpp,
--   src/gigamonkey/ledger.cpp), over the transactions and Script/Machine/Evaluate.
-- - Fees.antt: the design of a transaction (include/gigamonkey/fees.hpp), over Timechain/Incomplete.
-- - Work: Target has compact targets (include/gigamonkey/work/target.hpp); Proof has work strings,
--   puzzles and proofs (include/gigamonkey/work/string.hpp, include/gigamonkey/work/proof.hpp), and
--   `cpu_solve` (src/gigamonkey/work.cpp); Boost the bits of include/gigamonkey/work/ASICBoost.hpp.
-- - Base: lists, numbers, integers and bytes. Tests: the theorems at concrete inputs.
--
-- Bounds and fuel. A byte is a number below 256 (`IsByte`). An int64 and a uint32 are numbers, with
-- wrap-around written where the source can reach it. A failing assertion, which ends the process,
-- and undefined behaviour are `none`, or an exception that nothing tells apart. `serialize` recurses
-- on the number that is left. The loops of `decompile` and `find_and_delete` take a byte at least in
-- each round, so that the length of the script is fuel enough; the loop of a shift takes INT32_MAX
-- bits in each, and the number of bytes and one is enough. `run` has fuel of its own, the number of
-- steps, and is none where it does not suffice: a step that neither ends the script nor moves the
-- counter repeats. `past_end` is what the data library does where a reader is at its end. The rounds
-- of a tree halve its digests, so that the number of leaves is fuel enough for the loops over them.
-- `solve_loop` has fuel for its shares: `room` is how many come after a share, and more than that is
-- enough. The loop of `repeated` has fuel too; a pattern that takes no byte leaves it without an
-- end.
--
-- Not modelled: output as text, interactive stepping, difficulties, which are floating-point numbers,
-- and the other parts of the library (SPV, keys, addresses, stratum, boost).
pub mod Base
pub mod P2p
pub mod Sv
pub mod Script
pub mod Merkle
pub mod Work
pub mod Timechain
pub mod Sighash
pub mod Fees
pub mod Ledger
pub mod Tests
