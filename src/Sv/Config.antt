-- ===== src/Sv/Config.antt =====
-- include/gigamonkey/script/config.hpp and src/sv/config.cpp: the limits of the interpreter, with the
-- constants of include/sv/consensus/consensus.h and include/sv/policy/policy.h. The text of an error
-- is not modelled: a setter that refuses leaves the limits as they are, except
-- `SetMaxStackMemoryUsage`, which has stored its arguments when it finds them in the wrong order.
pub mod Limits
use gigamonkey.Base.{ℕ, ◌+◌, ◌-◌, ◌*◌, ◌^◌, Bool, true, false, ltb, ◌==◌, if◌then◌else◌}
use gigamonkey.Base.Int.{ℤ, pos, negsuc}

abbrev pub uint32_max : ℕ
uint32_max = 2 ^ 32 - 1

abbrev pub int64_max : ℕ
int64_max = 2 ^ 63 - 1

abbrev pub max_ops_per_script_before_genesis : ℕ
max_ops_per_script_before_genesis = 500

abbrev pub max_ops_per_script_after_genesis : ℕ
max_ops_per_script_after_genesis = uint32_max

abbrev pub max_pubkeys_per_multisig_before_genesis : ℕ
max_pubkeys_per_multisig_before_genesis = 20

abbrev pub max_pubkeys_per_multisig_after_genesis : ℕ
max_pubkeys_per_multisig_after_genesis = uint32_max

abbrev pub max_script_size_before_genesis : ℕ
max_script_size_before_genesis = 10000

abbrev pub max_script_size_after_genesis : ℕ
max_script_size_after_genesis = uint32_max

abbrev pub max_script_num_length_before_genesis : ℕ
max_script_num_length_before_genesis = 4

-- 750 kilobytes
abbrev pub max_script_num_length_after_genesis : ℕ
max_script_num_length_after_genesis = 750 * 1000

-- `script_config`
pub record ScriptConfig : Type 0 where
  pub max_ops_per_script_policy : ℕ
  pub max_pubkeys_per_multisig : ℕ
  pub max_stack_memory_usage_policy : ℕ
  pub max_stack_memory_usage_consensus : ℕ
  pub max_script_num_length_policy : ℕ
  pub max_script_size_policy : ℕ

-- the constructor
abbrev pub default_config : ScriptConfig
default_config = record {
  max_ops_per_script_policy = uint32_max;
  max_pubkeys_per_multisig = uint32_max;
  max_stack_memory_usage_policy = 100 * 1000000;
  max_stack_memory_usage_consensus = int64_max;
  max_script_num_length_policy = 250 * 1000;
  max_script_size_policy = 10000;
}

-- A setter's new limits, and whether it took the value.
pub set_max_ops_per_script_policy : ℤ → ScriptConfig → ScriptConfig × Bool
set_max_ops_per_script_policy (negsuc n) c = (c, false)
set_max_ops_per_script_policy (pos n) c =
    if ltb max_ops_per_script_after_genesis n
    then (c, false)
    else if n == 0
    then (record c { max_ops_per_script_policy = max_ops_per_script_after_genesis }, true)
    else (record c { max_ops_per_script_policy = n }, true)

pub set_max_pubkeys_per_multisig_policy : ℤ → ScriptConfig → ScriptConfig × Bool
set_max_pubkeys_per_multisig_policy (negsuc n) c = (c, false)
set_max_pubkeys_per_multisig_policy (pos n) c =
    if ltb max_pubkeys_per_multisig_after_genesis n
    then (c, false)
    else if n == 0
    then (record c { max_pubkeys_per_multisig = max_pubkeys_per_multisig_after_genesis }, true)
    else (record c { max_pubkeys_per_multisig = n }, true)

abbrev or_default : ℕ → ℕ
or_default n = if n == 0 then int64_max else n

pub set_max_stack_memory_usage : ℤ → ℤ → ScriptConfig → ScriptConfig × Bool
set_max_stack_memory_usage (negsuc m) policy c = (c, false)
set_max_stack_memory_usage (pos m) (negsuc n) c = (c, false)
set_max_stack_memory_usage (pos m) (pos n) c = (
  record c {
    max_stack_memory_usage_policy = or_default n;
    max_stack_memory_usage_consensus = or_default m;
  },
  if ltb (or_default m) (or_default n) then false else true,
)

pub set_max_script_num_length_policy : ℤ → ScriptConfig → ScriptConfig × Bool
set_max_script_num_length_policy (negsuc n) c = (c, false)
set_max_script_num_length_policy (pos n) c =
    if ltb max_script_num_length_after_genesis n
    then (c, false)
    else if n == 0
    then (record c { max_script_num_length_policy = max_script_num_length_after_genesis }, true)
    else if ltb n max_script_num_length_before_genesis
    then (c, false)
    else (record c { max_script_num_length_policy = n }, true)

pub set_max_script_size_policy : ℤ → ScriptConfig → ScriptConfig × Bool
set_max_script_size_policy (negsuc n) c = (c, false)
set_max_script_size_policy (pos n) c =
    if ltb max_script_size_after_genesis n
    then (c, false)
    else if n == 0
    then (record c { max_script_size_policy = max_script_size_after_genesis }, true)
    else (record c { max_script_size_policy = n }, true)

-- the getters, by whether genesis is enabled and whether the limit is consensus
abbrev by_rules : Bool → Bool → ℕ → ℕ → ℕ → ℕ
by_rules genesis consensus before after policy =
    if genesis then (if consensus then after else policy) else before

unfoldable pub get_max_ops_per_script : ScriptConfig → Bool → Bool → ℕ
get_max_ops_per_script c genesis consensus =
    by_rules genesis consensus max_ops_per_script_before_genesis max_ops_per_script_after_genesis
      c.max_ops_per_script_policy

pub get_max_pubkeys_per_multisig : ScriptConfig → Bool → Bool → ℕ
get_max_pubkeys_per_multisig c genesis consensus =
    by_rules genesis consensus max_pubkeys_per_multisig_before_genesis
      max_pubkeys_per_multisig_after_genesis c.max_pubkeys_per_multisig

unfoldable pub get_max_stack_memory_usage : ScriptConfig → Bool → Bool → ℕ
get_max_stack_memory_usage c genesis consensus =
    by_rules genesis consensus int64_max c.max_stack_memory_usage_consensus
      c.max_stack_memory_usage_policy

pub get_max_script_num_length : ScriptConfig → Bool → Bool → ℕ
get_max_script_num_length c genesis consensus =
    by_rules genesis consensus max_script_num_length_before_genesis
      max_script_num_length_after_genesis c.max_script_num_length_policy

pub get_max_script_size : ScriptConfig → Bool → Bool → ℕ
get_max_script_size c genesis consensus =
    by_rules genesis consensus max_script_size_before_genesis max_script_size_after_genesis
      c.max_script_size_policy
