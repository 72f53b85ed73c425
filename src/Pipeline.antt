-- ===== src/Pipeline.antt =====
-- The path of a payment through the parts: SubmitPayment, one batch of the relay, and the delivery of
-- its event to the ledger consumer.
pub mod Stored
pub mod Sent
pub mod Captured
