-- ===== src/Server/Restore.antt =====
-- What the start of the server makes of a snapshot.
pub mod Strings
pub mod Hashes
pub mod Sequences
pub mod Members
