-- ===== src/State.antt =====
-- The accounts that the program keeps (src/state/): one module for each account type.
pub mod Margin
pub mod Session
pub mod Volume
pub mod Fees
pub mod Market
pub mod Pmlc
pub mod Config
pub mod Multisig
pub mod Timelock
pub mod Buckets
pub mod Stablecoins
