-- ===== src/Helpers.antt =====
-- integration/src/helpers.rs: clients, accounts and notes made from compiled packages.
pub mod Toolchain
pub mod Building
pub mod Components
pub mod Accounts
pub mod Notes
