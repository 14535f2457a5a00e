-- ===== src/Sv.antt =====
-- include/sv and src/sv: script numbers, the limits of the interpreter.
pub mod IntSerialization
pub mod BigNum
pub mod ScriptNum
pub mod Config
