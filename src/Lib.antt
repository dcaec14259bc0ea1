-- ===== src/Lib.antt =====
-- LatticeAG gateway: the control plane of the daemon, packages/core/src/v2, and the way of a call
-- through packages/gateway-daemon/src/rpc. The daemon keeps durable rows for approvals, peers,
-- pairs, grants and sessions behind ports; a manager for each concern reads and writes them and
-- answers a call or throws an RpcError with a code of a closed registry. Pairing (peers/pairs.ts)
-- leads a peer from an invitation over the operator's approval to its enrollment in the registry
-- (peers/registry.ts), which the tokens (peers/tokens.ts) authenticate afterwards, together with
-- the proof that each request carries (peers/proofs.ts); its scopes (peers/scopes.ts) say what it
-- may call; approvals (approvals/approvals.ts) are the human decisions on actions that a peer
-- requests. The outbox (sync/outbox.ts) exports events to remote sinks: an enqueue stores an item
-- under the consent of its stream, the pump starts sends of batches, and the answers of the sinks
-- lead the items to ACKED, RETRY or BLOCKED. The catalog (catalog/) caches a signed index of
-- products and says what may be installed. In front of all stands the dispatcher (packages/gateway-
-- daemon/src/rpc/dispatch.ts), which reads a call's envelope, authenticates its credentials
-- (rpc/auth.ts), authorizes it, answers a retry from the table of operations, and otherwise lets a
-- service run and seals the receipt. All share the errors, the identifiers and the peers' types of
-- protocol/ and crypto/ids.ts.
--
-- Which file models what, under packages/core/src/v2 where no other path is given:
--
--   Base and its modules: tests, lists, tables (JavaScript's Map), pages, sorting, integers.
--   Exec: methods over a store that may throw; Exec/Checks without a store; Exec/Bind: sequences.
--   Protocol/Errors: protocol/errors.ts. Protocol/Values: the JSON values that validators read.
--   Protocol/Lexical: crypto/ids.ts and the regular expressions of the validators.
--   Protocol/Peers: protocol/peers.ts (types, PEER_LIMITS, PAIR_TRANSITIONS, checkScopeAdmission).
--   Approvals, Approvals/Refs: approvals/approvals.ts and approvals/ports.ts (ApprovalManager:
--     request, list, get, decide, cancel, getLive, expireIfDue).
--   Peers/Ports: peers/ports.ts (rows and the maps of createMemoryPeerPorts).
--   Peers/Registry: peers/registry.ts (PeerRegistry). Peers/Tokens: peers/tokens.ts (TokenService).
--   Peers/Registration, Peers/Registration/Shape: the lexical checks of peers/pairs.ts.
--   Peers/Pairs, Peers/Pairs/Operations: the PairingManager of peers/pairs.ts.
--   Peers/Pairs/Calls: what register of peers/service.ts calls on pairs, and sequences of calls.
--   Peers/Pairs/Lifecycle and its modules: what each operation may write to a pair.
--   Peers/Proofs, Peers/Proofs/Headers: peers/proofs.ts (readProofHeaders, verifyRequestProof).
--   Peers/Proofs/Once: when a request is accepted, and sequences of requests. Peers/Proofs/RoundTrip:
--     the headers that a client writes.
--   Peers/Scopes: peers/scopes.ts (assertRole, intersectScopes, effectiveGrant, bindCapabilities);
--     Peers/Scopes/Methods: assertScope. Peers/Scopes/Grants, Peers/Scopes/Admission: theorems.
--   Protocol/Methods: protocol/rpc-registry.ts (RPC_METHODS) and protocol/topics.ts.
--   Sync: protocol/sync.ts and the rows of sync/ports.ts. Sync/Engine, Sync/Sends, Sync/Answers: the
--     OutboxEngine of sync/outbox.ts (enqueue, transition, repair, pause, resume; pump, startSend
--     and runSend up to its first await; runSend behind its awaits). Sync/Status: counts,
--     failOnSyncStatus and what a turn of flush decides. Sync/Events: any order of calls, answers of
--     sinks and ends of sends.
--   Sync/Moves, Sync/Writes, Sync/Slots, Sync/Schedule, Sync/Runs, Sync/Pump, Sync/Batches, Sync/Fill, Sync/Settle,
--     Sync/Outcomes: lemmas and theorems on the parts; Sync/Safety, Sync/Gate, Sync/Flush: over all runs.
--   Daemon/Envelope: protocol/envelope.ts. Daemon/Envelope/Depth, Daemon/Envelope/RoundTrip: theorems.
--   Daemon/Sessions: the SessionStore of packages/gateway-daemon/src/rpc/auth.ts. Its modules: sequences
--     of calls, and theorems.
--   Daemon/Auth: resolvePrincipal of rpc/auth.ts over the interface PeerTokenStore. Daemon/Auth/Tokens:
--     its two stores (InMemoryPeerTokenStore, and DurablePeerTokenStore of
--     packages/gateway-daemon/src/adapters/store-ports.ts), and the law that they meet (Daemon/Auth/Memory
--     for the first). Daemon/Auth/Nonces, Daemon/Auth/Revoked: theorems.
--   Daemon/Gate (Daemon/Gate/Covers: theorems), Daemon/Routes, Daemon/Values: peerScopeAllows, METHOD_SERVICE_MAP, scrubParams and
--     bindingParams of packages/gateway-daemon/src/rpc/dispatch.ts.
--   Daemon/Dispatch, Daemon/Dispatch/Steps, Daemon/Dispatch/Finish: run of rpc/dispatch.ts, up to
--     authorization, to the call of the service, and behind it; with the operations table of
--     packages/gateway-daemon/src/store/registry.ts. Daemon/Dispatch/Runs: any order of arrivals and
--     answers. Daemon/Dispatch/Replay, Once, Admission: theorems.
--   Catalog: protocol/catalog.ts and catalog/ports.ts. Catalog/Lexical: protocol/product.ts.
--     Catalog/Index, Catalog/Verify: verifyIndex of catalog/index.ts. Catalog/Store,
--     Catalog/Store/Authorize: refresh and authorizeInstall. Catalog/Service: catalog/service.ts.
--     Catalog/Verify/Quorum, Catalog/Store/Register, Catalog/Store/Installs, Catalog/Service/Pins:
--     theorems.
--   Approvals/Tests, Peers/Tests, Sync/Tests, Daemon/Tests, Catalog/Tests: concrete inputs.
--
-- How the code is translated. A method is a function from the store to an answer and a store; what
-- was written before a throw stays written. A row that a map holds is one object in the code,
-- shared by all who look it up, so an assignment to a field of it is a write to the map under the
-- row's own key. The clock, the identifiers and the random texts that a call obtains are arguments
-- of it; the clock is read once for a call. Revisions, which the code keeps as decimal texts of
-- unbounded integers, are natural numbers, and so are times; an expiry that a client sends is an
-- integer of JavaScript within the safe range. Epochs are texts. The outbox is concurrent:
-- `runSend` is cut at its awaits into calls that run at once, a send that waits is a row of the
-- engine with its phase, and a run of the engine is any list of events, calls and ends of awaits
-- alike. The dispatcher is concurrent too: a call that waits for its service is a row, `begin` runs
-- up to there, `finish` behind it, and the commit of the receipt is one step with what follows. An
-- error is its code and its field; its message is not modelled, and `retryable` is membership in
-- the registry's set, as in all the throws of these files.
--
-- What comes from outside is a parameter: the hash of a text, the commitment of an action, the
-- derivation of a key's id, the verification of signatures, the decoding of base64url, what the
-- rate limiter throws and what the admission hook throws; for the outbox the projection of an
-- event, the hashes, the sinks and their answers, and the samples of the jitter. For the dispatcher
-- the strict parser, the hashes of canonical texts, what a service answers and what the sink of
-- receipts gives or that it throws are parameters, and a saved response stands for its own JSON
-- text; for the catalog the canonical text, the verification of a statement and the fetched index.
-- No theorem needs a hypothesis on them, but that a sample stays in its range (`floor(random() *
-- (cap + 1))` is at most the cap), and for the headers of a proof that toLowerCase tells their five
-- names apart and Number reads the two decimals that were written. Theorems on stores suppose where
-- needed that every row stands under its own key, which the operations keep, and that a minted id
-- is new.
--
-- Every loop of these files runs over a list, so the operations use no fuel, but for `pump`: its
-- fuel is 2, the number of slots, and a theorem shows that its loop has then ended by its own
-- condition. A client that asks for page after page (Base/Page/Walk) has as fuel the number of rows
-- and one, which its theorem shows to be enough.
--
-- Theorems on the outbox let its engine start over any store with no send under way, and hold in
-- every state that it comes to from there. A proof's nonce is kept by one of the two ports that the
-- repository has, of which that of the daemon forgets it with the proof's expiry (packages/gateway-
-- daemon/src/adapters/store-ports.ts); the theorem on it holds of both, up to that time. Theorems
-- on the daemon suppose that the operations table is at hand and, for a nonce, that its store
-- remembers it until its time, which both stores are shown to do.
--
-- Not modelled: the loop of flush around its turns and its clock, the stored payloads, the
-- disclosure and the transports of sync/, and the other parts of packages/core/src/v2 (lifecycle,
-- canonical JSON, rate limits, cloud, platform), the older core, the bus, the configuration, the
-- daemon's store, sockets and event streams, the adapters, the command line and the user
-- interfaces.
pub mod Base
pub mod Protocol
pub mod Exec
pub mod Approvals
pub mod Peers
pub mod Sync
pub mod Daemon
pub mod Catalog
