-- ===== src/Vault.antt =====
-- app/vault_client.py: reads a secret from Vault's KV v2 store, with retries and one audit event
-- per call. `Path` parses the secret's path, `Client` holds the operations; the rest are proofs.
pub mod Path
pub mod Client
pub mod Quiet
pub mod Paths
pub mod Retry
pub mod Replies
pub mod Outage
pub mod Secrecy
