-- ===== src/Credentials.antt =====
-- app/credential_manager.py: the credential cache, its loading from Vault, and the refresh loop.
-- `Manager` holds the data and the queries, `Load` the loading, `Refresh` the loop; the rest are proofs.
pub mod Status
pub mod Manager
pub mod Load
pub mod Refresh
pub mod Outcome
pub mod Loading
pub mod Cache
pub mod Window
pub mod Replied
pub mod Deciding
pub mod Disguise
pub mod Accepting
pub mod Secrecy
pub mod Backoff
pub mod Outage
