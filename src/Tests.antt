-- ===== src/Tests.antt =====
-- Concrete runs of the modelled code, each through a theorem of the development.
pub mod Sample
pub mod Transfers
pub mod Messages
pub mod Deliveries
pub mod Policy
pub mod People
pub mod LedgerSample
pub mod Ledgers
pub mod Borrowing
pub mod SignIns
pub mod Linking
pub mod Burns
pub mod Lines
