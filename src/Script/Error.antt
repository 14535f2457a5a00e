-- ===== src/Script/Error.antt =====
-- include/gigamonkey/script/error.h, the `result` of include/gigamonkey/script/script.hpp, and the
-- exceptions that `catch_all_errors` of src/gigamonkey/script/machine.cpp tells apart.
use gigamonkey.Base.{Bool, false}

-- `ScriptError`
pub data ScriptError : Type 0 where
  ok unknown_error eval_false op_return : ScriptError
  script_size push_size op_count stack_size sig_count pubkey_count : ScriptError
  invalid_operand_size invalid_number_range impossible_encoding : ScriptError
  invalid_split_range scriptnum_overflow scriptnum_minencode : ScriptError
  verify equal_verify check_multisig_verify check_sig_verify num_equal_verify : ScriptError
  bad_opcode disabled_opcode invalid_stack_operation : ScriptError
  invalid_altstack_operation unbalanced_conditional : ScriptError
  div_by_zero mod_by_zero : ScriptError
  negative_locktime unsatisfied_locktime : ScriptError
  sig_hashtype sig_der minimal_data sig_push_only sig_high_s sig_null_dummy : ScriptError
  pubkey_type clean_stack minimal_if sig_null_fail : ScriptError
  discourage_upgradable_nops : ScriptError
  noncompressed_pubkey : ScriptError
  illegal_forkid must_use_forkid : ScriptError
  big_int error_count : ScriptError

-- `result`
pub record EvalResult : Type 0 where
  pub error : ScriptError
  pub success : Bool

-- `result (ScriptError)` and `result (bool)`
abbrev pub fails : ScriptError → EvalResult
fails e = record { error = e; success = false }

abbrev pub succeeds : Bool → EvalResult
succeeds b = record { error = ScriptError.ok; success = b }

-- What the operations throw. `other` is any exception that `catch (...)` takes.
pub data Exception : Type 0 where
  scriptnum_overflow_error scriptnum_minencode_error stack_overflow_error : Exception
  big_int_error out_of_range other : Exception
