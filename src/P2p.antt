-- ===== src/P2p.antt =====
-- include/gigamonkey/p2p and src/gigamonkey/p2p: the serialized formats.
pub mod VarInt
