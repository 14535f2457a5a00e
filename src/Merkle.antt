-- ===== src/Merkle.antt =====
-- include/gigamonkey/merkle and src/gigamonkey/merkle.cpp: trees of hashes, and the proofs that a
-- leaf belongs to a root.
pub mod Proof
pub mod Rounds
pub mod Tree
pub mod Server
pub mod Dual
