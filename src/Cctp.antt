-- ===== src/Cctp.antt =====
-- The Circle CCTP bridge of the backend (backend/src/cctp): the transfer state machine, the
-- message parser, the delivery plan and the executor.
pub mod Errors
pub mod Transfer
pub mod Utf8
pub mod Strkey
pub mod Message
pub mod IrisClient
pub mod Chains
pub mod Delivery
pub mod Executor
pub mod Burn
