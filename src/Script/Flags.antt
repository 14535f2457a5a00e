-- ===== src/Script/Flags.antt =====
-- include/gigamonkey/script/flags.h: the bits of a `uint32` of flags, by position.
use gigamonkey.Base.{ℕ, ◌/◌, ◌%◌, ◌^◌, Bool, ◌==◌}

abbrev pub script_verify_p2sh : ℕ
script_verify_p2sh = 0

abbrev pub script_verify_strictenc : ℕ
script_verify_strictenc = 1

abbrev pub script_verify_dersig : ℕ
script_verify_dersig = 2

abbrev pub script_verify_low_s : ℕ
script_verify_low_s = 3

abbrev pub script_verify_nulldummy : ℕ
script_verify_nulldummy = 4

abbrev pub script_verify_sigpushonly : ℕ
script_verify_sigpushonly = 5

abbrev pub script_verify_minimaldata : ℕ
script_verify_minimaldata = 6

abbrev pub script_verify_discourage_upgradable_nops : ℕ
script_verify_discourage_upgradable_nops = 7

abbrev pub script_verify_cleanstack : ℕ
script_verify_cleanstack = 8

abbrev pub script_verify_checklocktimeverify : ℕ
script_verify_checklocktimeverify = 9

abbrev pub script_verify_checksequenceverify : ℕ
script_verify_checksequenceverify = 10

abbrev pub script_verify_minimalif : ℕ
script_verify_minimalif = 13

abbrev pub script_verify_nullfail : ℕ
script_verify_nullfail = 14

abbrev pub script_verify_compressed_pubkeytype : ℕ
script_verify_compressed_pubkeytype = 15

abbrev pub script_enable_sighash_forkid : ℕ
script_enable_sighash_forkid = 16

abbrev pub script_genesis : ℕ
script_genesis = 18

abbrev pub script_utxo_after_genesis : ℕ
script_utxo_after_genesis = 19

abbrev pub script_flag_last : ℕ
script_flag_last = 20

-- `(flags & (1U << bit)) != 0`
abbrev pub has : ℕ → ℕ → Bool
has flags bit = flags / 2 ^ bit % 2 == 1
