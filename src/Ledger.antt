-- ===== src/Ledger.antt =====
-- The credit ledger of internal/aghub: its rows and amounts, settlement, clearing between hubs,
-- redemption, supply and retention, and what holds of them.
pub mod State
pub mod Rows
pub mod Core
pub mod Issue
pub mod Settle
pub mod Sound
pub mod Clear
pub mod Payment
pub mod Facilitator
pub mod Verify
pub mod Peers
pub mod Redeem
pub mod Janitor
pub mod Run
pub mod Epochs
mod Tests
