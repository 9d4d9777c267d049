-- ===== src/Tests.antt =====
-- Runs at concrete inputs, and the theorems at inputs that meet their hypotheses.
mod Doubles
mod Tables
mod Signing
mod Clients
mod Machines
mod Programs
mod Accounts
mod Demo
mod MultisigDemo
mod Helpers
mod Taking
mod Ledgers
mod Networks
mod Queries
mod Operations
mod Balances
