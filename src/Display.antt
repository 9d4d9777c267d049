-- ===== src/Display.antt =====
-- The tables of integration/src/display.rs. A printing function returns its printed lines.
pub mod Layout
pub mod BalanceTable
pub mod SignerTable
