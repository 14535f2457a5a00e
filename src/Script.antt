-- ===== src/Script.antt =====
-- include/gigamonkey/script and src/gigamonkey/script: programs and the machine that runs them.
pub mod Error
pub mod Opcode
pub mod Flags
pub mod Counter
pub mod Pattern
pub mod Instruction
pub mod Action
pub mod Stack
pub mod Document
pub mod Machine
