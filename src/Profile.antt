-- ===== src/Profile.antt =====
-- internal/publicprofile: which snapshot may replace the public one, and which may reach GitHub.
pub mod Snapshot
pub mod Labels
pub mod Keep
pub mod Calendar
pub mod Publish
pub mod Refresh
pub mod Retain
