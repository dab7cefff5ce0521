-- ===== src/Ledger.antt =====
-- internal/ledger: the durable usage ledger. Identity of a fact, facts, and the database.
pub mod Key
pub mod Fact
pub mod Store
pub mod Tx
pub mod Permit
pub mod Correct
pub mod Omit
pub mod Observe
pub mod CursorLink
