-- ===== src/Tests.antt =====
-- Concrete runs: each applies a theorem to data on which its conditions hold.
pub mod Money
pub mod Trade
pub mod Signature
pub mod Settle
pub mod Admin
pub mod Book
pub mod Timelock
pub mod Matching
pub mod Fees
pub mod Intents
pub mod Novate
pub mod Offers
pub mod Closing
pub mod Sessions
pub mod Custody
pub mod Registry
