-- ===== src/Protocol/Codec.antt =====
-- packages/protocol/src/codec.ts: validation, normalisation and the digests.
pub mod Blocks
pub mod Lists
pub mod Canonical
pub mod Idempotence
pub mod Primitives
pub mod Normalize
pub mod Policy
pub mod Parameters
pub mod Encoding
pub mod Digests
pub mod Commitment
pub mod Ingress
