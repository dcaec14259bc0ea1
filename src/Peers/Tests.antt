-- ===== src/Peers/Tests.antt =====
-- Peers, tokens and pairs at concrete inputs.
pub mod Tokens
mod Pairs
mod Proofs
mod Scopes
