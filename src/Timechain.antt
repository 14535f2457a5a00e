-- ===== src/Timechain.antt =====
-- include/gigamonkey/timechain.hpp and src/gigamonkey/timechain.cpp: transactions, headers and blocks.
pub mod Header
pub mod Transaction
pub mod Block
pub mod Views
pub mod Incomplete
