-- ===== src/Programs.antt =====
-- integration/src/bin: the programs that run one operation each.
pub mod Setup
pub mod Arguments
pub mod Tokens
pub mod Accounts
pub mod FullDemo
pub mod Printing
pub mod MultisigDemo
