-- ===== src/Scripts.antt =====
-- The validators of contracts/ and scripts/ that gate a release.
pub mod Keys
pub mod Views
pub mod Contracts
pub mod Snapshot
pub mod Parity
pub mod Release
pub mod Manifest
pub mod Security
