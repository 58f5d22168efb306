-- ===== src/Bus.antt =====
-- crates/mamba-bus: the dispatcher that persists envelopes and sends each to its provider.
pub mod Errors
pub mod Openfang
pub mod Billing
pub mod Dispatch
pub mod Config
pub mod Route
pub mod Webhook
pub mod Queue
