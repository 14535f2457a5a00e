-- ===== src/Sv/Config/Limits.antt =====
-- The policy limits of src/sv/config.cpp stay within the consensus limits.
use gigamonkey.Base.{ℕ, ◌≤◌, ◌≡◌, Bool, true, false, arith, ◌↔◌}
use gigamonkey.Base.Int.{ℤ, pos, negsuc}
use gigamonkey.Sv.Config.{
  ScriptConfig, default_config, set_max_ops_per_script_policy, set_max_pubkeys_per_multisig_policy,
  set_max_stack_memory_usage, set_max_script_num_length_policy, set_max_script_size_policy,
  get_max_ops_per_script, get_max_pubkeys_per_multisig, get_max_stack_memory_usage,
  get_max_script_num_length, get_max_script_size, max_script_num_length_before_genesis,
}

-- Every policy limit is at least the least useful one and at most the consensus limit.
pub record IsWithin (c : ScriptConfig) : Type 0 where
  pub ops : c.max_ops_per_script_policy ≤ get_max_ops_per_script c true true
  pub pubkeys : c.max_pubkeys_per_multisig ≤ get_max_pubkeys_per_multisig c true true
  pub num_length : c.max_script_num_length_policy ≤ get_max_script_num_length c true true
  pub num_length_lower : max_script_num_length_before_genesis ≤ c.max_script_num_length_policy
  pub script_size : c.max_script_size_policy ≤ get_max_script_size c true true

pub default_config-IsWithin : IsWithin default_config
unfolding get_max_ops_per_script get_max_pubkeys_per_multisig get_max_script_num_length
    get_max_script_size
default_config-IsWithin = record {
  ops = omega arith;
  pubkeys = omega arith;
  num_length = omega arith;
  num_length_lower = omega arith;
  script_size = omega arith;
}

-- one call of a setter
pub data Setter : Type 0 where
  ops_per_script pubkeys_per_multisig script_num_length script_size_policy : ℤ → Setter
  stack_memory_usage : ℤ → ℤ → Setter

abbrev pub apply : Setter → ScriptConfig → ScriptConfig × Bool
apply (ops_per_script n) = set_max_ops_per_script_policy n
apply (pubkeys_per_multisig n) = set_max_pubkeys_per_multisig_policy n
apply (script_num_length n) = set_max_script_num_length_policy n
apply (script_size_policy n) = set_max_script_size_policy n
apply (stack_memory_usage m n) = set_max_stack_memory_usage m n

-- Whatever value a setter is called with, taken or refused, the policy limits stay within the
-- consensus limits.
pub apply-IsWithin : (x : Setter) (c : ScriptConfig) → IsWithin c → IsWithin (apply x c).0
unfolding set_max_ops_per_script_policy set_max_pubkeys_per_multisig_policy
    set_max_stack_memory_usage set_max_script_num_length_policy set_max_script_size_policy
    get_max_ops_per_script get_max_pubkeys_per_multisig get_max_script_num_length
    get_max_script_size
apply-IsWithin (ops_per_script (pos n)) c i = ground arith
apply-IsWithin (ops_per_script (negsuc n)) c i = i
apply-IsWithin (pubkeys_per_multisig (pos n)) c i = ground arith
apply-IsWithin (pubkeys_per_multisig (negsuc n)) c i = i
apply-IsWithin (script_num_length (pos n)) c i = ground arith
apply-IsWithin (script_num_length (negsuc n)) c i = i
apply-IsWithin (script_size_policy (pos n)) c i = ground arith
apply-IsWithin (script_size_policy (negsuc n)) c i = i
apply-IsWithin (stack_memory_usage (pos m) (pos n)) c i = ground arith
apply-IsWithin (stack_memory_usage (pos m) (negsuc n)) c i = i
apply-IsWithin (stack_memory_usage (negsuc m) n) c i = i

-- The memory limits that `SetMaxStackMemoryUsage` accepts are in order, and it stores those that it
-- refuses for not being in order all the same.
pub set_max_stack_memory_usage_order :
    (m n : ℕ) (c : ScriptConfig)
    → ((set_max_stack_memory_usage (pos m) (pos n) c).1 ≡ true) ↔ (
        get_max_stack_memory_usage (set_max_stack_memory_usage (pos m) (pos n) c).0 true false
        ≤ get_max_stack_memory_usage (set_max_stack_memory_usage (pos m) (pos n) c).0 true true)
unfolding set_max_stack_memory_usage get_max_stack_memory_usage
set_max_stack_memory_usage_order m n c = ground arith
