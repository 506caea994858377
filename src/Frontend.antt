-- ===== src/Frontend.antt =====
-- The client-side state of the user interface (frontend/src): the retry queues and the credit store.
pub mod Queue
pub mod CreditStore
