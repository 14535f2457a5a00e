-- ===== src/Work.antt =====
-- include/gigamonkey/work and src/gigamonkey/work.cpp: targets, and proofs of work.
pub mod Target
pub mod Proof
pub mod Boost
