-- ===== src/Auth.antt =====
-- app/services/auth_service.py: accounts, sign-in sessions and password-reset links, in the tables of
-- app/models/auth.py. Argon2, SHA-256, the drawn tokens, salts and ids and the clock are parameters.
-- Each call is one transaction: where it raises, nothing is committed.
pub mod Rows
pub mod Service
pub mod Deletion
pub mod Calls
pub mod Spent
pub mod Valid
pub mod Kept
pub mod Invariant
pub mod Sessions
pub mod Recovery
pub mod Gone
pub mod Erased
mod Samples
mod Leaving
