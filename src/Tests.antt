-- ===== src/Tests.antt =====
-- Runs of the definitions on concrete inputs, and the theorems at such inputs.
mod Data
mod Ledger
mod Identity
mod Publication
mod Totals
mod Rank
mod Observe
mod Price
mod Sync
mod Retain
mod Receive
