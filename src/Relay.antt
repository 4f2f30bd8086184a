-- ===== src/Relay.antt =====
-- apps/relay/src: the relay that sends a request to three machines, keeps the answers that are
-- signed and in order, and submits two that agree.
pub mod Types
pub mod Machines
pub mod Envelope
pub mod Evaluation
pub mod Telemetry
pub mod Service
pub mod Key
