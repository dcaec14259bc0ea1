-- ===== src/Peers.antt =====
-- packages/core/src/v2/peers: pairing, the peer registry, grants and scopes.
pub mod Ports
pub mod Registry
pub mod Tokens
pub mod Proofs
pub mod Scopes
pub mod Registration
pub mod Pairs
pub mod Tests
