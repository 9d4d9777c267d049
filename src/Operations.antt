-- ===== src/Operations.antt =====
-- integration/src/operations.rs
pub mod Monad
pub mod Links
pub mod Accounts
pub mod Notes
pub mod Tokens
pub mod Reads
pub mod Recorded
pub mod Deployment
pub mod Calls
