-- ===== src/Protocol.antt =====
-- packages/protocol: the records, the schedule, the spend window, the codec and the evaluator.
pub mod Types
pub mod Schedule
pub mod SpendWindow
pub mod Constants
pub mod Violations
pub mod Codec
pub mod PrivateWire
pub mod Evaluator
