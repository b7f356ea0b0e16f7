-- ===== src/Crypto.antt =====
-- app/core/crypto.py: the envelope encryption of the students' keys. AES-256-GCM, base64, UTF-8 and the
-- drawn bytes are parameters; a string of bytes is a list of numbers.
pub mod Keyring
pub mod Seal
pub mod Opened
pub mod Rows
pub mod Token
pub mod Carried
pub mod Loaded
mod Samples
