-- ===== src/Replay.antt =====
-- Replay protection: the store of webhook deliveries (cerberus/core/replay/replay.go) and the store
-- of token identifiers (pkg/brokerauth/memreplay.go).
pub mod Deliveries
pub mod Tokens
