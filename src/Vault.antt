-- ===== src/Vault.antt =====
-- app/services/vault_service.py: the credentials of the students, in the table of
-- app/models/credential.py. The secret stores are an interface (app/services/secret_store.py).
pub mod Rows
pub mod Secrets
pub mod Requests
pub mod Service
pub mod Upkeep
pub mod Counts
pub mod Clearing
pub mod Defaults
pub mod Promotion
pub mod Invariant
pub mod Reachable
pub mod Access
pub mod Refused
pub mod Trail
pub mod Resolver
pub mod Candidates
pub mod Ownership
mod Samples
