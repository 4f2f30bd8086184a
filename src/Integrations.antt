-- ===== src/Integrations.antt =====
-- packages/integrations/src: the XRPL payment proof and the funding job that it lets mint.
pub mod Fdc
pub mod Funding
pub mod Redemption
pub mod Ftso
pub mod FdcRound
pub mod Vault
