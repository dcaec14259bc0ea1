-- ===== src/Protocol.antt =====
-- packages/core/src/v2/protocol: the closed vocabularies that the services share.
pub mod Errors
pub mod Values
pub mod Lexical
pub mod Peers
pub mod Methods
