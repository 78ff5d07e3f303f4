-- ===== src/Telemetry.antt =====
-- The telemetry adapter (adapters/telemetry).
pub mod Zeckendorf
pub mod Merkle
pub mod SelfHeal
pub mod Epochs
pub mod AckChannel
pub mod Transport
pub mod Quantizer
pub mod Packed
