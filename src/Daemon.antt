-- ===== src/Daemon.antt =====
-- packages/gateway-daemon/src/rpc: how a call of the RPC interface is read, authenticated, admitted, run
-- and remembered.
pub mod Sessions
pub mod Envelope
pub mod Auth
pub mod Gate
pub mod Routes
pub mod Values
pub mod Dispatch
mod Tests
