-- ===== src/Protocol/Methods.antt =====
-- packages/core/src/v2/protocol/rpc-registry.ts and protocol/topics.ts: the methods of the RPC interface with
-- the roles that may call them, and the topics. A name that an object inherits (`toString`) is not in the table.
use latticeag_gateway.Base.{String, Bool, true, false, List, [], ◌∷◌, includes}
use latticeag_gateway.Base.Table.{Table}

pub data Role : Type 0 where
  viewer agents operators reviewers local pairing : Role

abbrev pub same_role : Role → Role → Bool
same_role viewer viewer = true
same_role agents agents = true
same_role operators operators = true
same_role reviewers reviewers = true
same_role local local = true
same_role pairing pairing = true
same_role _ _ = false

pub record MethodSpec : Type 0 where
  pub roles : List Role
  pub mutating : Bool
  pub receipt : Bool

abbrev spec : List Role → Bool → MethodSpec
spec roles mutating = record { roles = roles; mutating = mutating; receipt = true }

abbrev conn : List Role → Bool → MethodSpec
conn roles mutating = record { roles = roles; mutating = mutating; receipt = false }

-- RPC_METHODS
unfoldable pub rpc_methods : Table MethodSpec
rpc_methods =
    ("daemon.hello", conn (viewer ∷ agents ∷ operators ∷ []) false)
    ∷ ("daemon.status", spec (viewer ∷ operators ∷ []) false)
    ∷ ("daemon.stop", spec (local ∷ []) true)
    ∷ ("config.get", spec (operators ∷ []) false)
    ∷ ("config.validate", spec (operators ∷ []) false)
    ∷ ("config.apply", spec (operators ∷ []) true)
    ∷ ("run.register", spec (agents ∷ operators ∷ []) true)
    ∷ ("run.heartbeat", conn (agents ∷ operators ∷ []) true)
    ∷ ("run.finish", spec (agents ∷ operators ∷ []) true)
    ∷ ("events.publish", spec (agents ∷ operators ∷ []) true)
    ∷ ("events.query", spec (viewer ∷ agents ∷ operators ∷ []) false)
    ∷ ("events.subscribe", spec (viewer ∷ agents ∷ operators ∷ []) true)
    ∷ ("events.ack", conn (viewer ∷ agents ∷ operators ∷ []) true)
    ∷ ("objects.put", spec (agents ∷ operators ∷ []) true)
    ∷ ("objects.get", spec (viewer ∷ agents ∷ operators ∷ []) false)
    ∷ ("receipt.get", spec (viewer ∷ agents ∷ operators ∷ []) false)
    ∷ ("lineage.query", spec (viewer ∷ agents ∷ operators ∷ []) false)
    ∷ ("operation.get", spec (viewer ∷ operators ∷ []) false)
    ∷ ("operation.cancel", spec (operators ∷ []) true)
    ∷ ("product.plan", spec (operators ∷ []) true)
    ∷ ("product.install", spec (operators ∷ []) true)
    ∷ ("product.uninstall", spec (operators ∷ []) true)
    ∷ ("product.update", spec (operators ∷ []) true)
    ∷ ("product.rollback", spec (operators ∷ []) true)
    ∷ ("product.list", spec (viewer ∷ operators ∷ []) false)
    ∷ ("product.health", spec (viewer ∷ operators ∷ []) false)
    ∷ ("agent.pair.create", spec (local ∷ []) true)
    ∷ ("agent.pair.propose", spec (pairing ∷ []) true)
    ∷ ("agent.pair.get", spec (pairing ∷ local ∷ []) false)
    ∷ ("agent.pair.approve", spec (local ∷ []) true)
    ∷ ("agent.pair.cancel", spec (local ∷ []) true)
    ∷ ("agent.challenge", conn (pairing ∷ agents ∷ []) true)
    ∷ ("agent.register", spec (pairing ∷ []) true)
    ∷ ("agent.renew", conn (agents ∷ []) true)
    ∷ ("agent.list", spec (viewer ∷ agents ∷ operators ∷ []) false)
    ∷ ("agent.revoke", spec (operators ∷ []) true)
    ∷ ("agent.disconnect", spec (agents ∷ operators ∷ []) true)
    ∷ ("approval.request", spec (agents ∷ operators ∷ []) true)
    ∷ ("approval.list", spec (viewer ∷ reviewers ∷ operators ∷ []) false)
    ∷ ("approval.get", spec (viewer ∷ reviewers ∷ operators ∷ []) false)
    ∷ ("approval.decide", spec (reviewers ∷ operators ∷ []) true)
    ∷ ("approval.cancel", spec (agents ∷ operators ∷ []) true)
    ∷ ("ui.session.create", spec (local ∷ []) true)
    ∷ ("ui.session.exchange", conn (pairing ∷ []) true)
    ∷ ("ui.session.revoke", spec (viewer ∷ operators ∷ []) true)
    ∷ ("sync.status", spec (viewer ∷ operators ∷ []) false)
    ∷ ("sync.pause", spec (operators ∷ []) true)
    ∷ ("sync.resume", spec (operators ∷ []) true)
    ∷ ("sync.configure", spec (operators ∷ []) true)
    ∷ ("sync.flush", spec (operators ∷ []) true)
    ∷ ("cloud.pair.begin", spec (local ∷ []) true)
    ∷ ("cloud.pair.complete", spec (local ∷ []) true)
    ∷ ("cloud.pair.revoke", spec (local ∷ []) true)
    ∷ ("catalog.refresh", spec (operators ∷ []) true)
    ∷ ("catalog.search", spec (viewer ∷ operators ∷ []) false)
    ∷ ("catalog.show", spec (viewer ∷ operators ∷ []) false)
    ∷ ("catalog.pin", spec (operators ∷ []) true)
    ∷ ("catalog.unpin", spec (operators ∷ []) true)
    ∷ []

-- TOPICS
abbrev pub topics : List String
topics =
    "telemetry" ∷ "belief" ∷ "tool.observation" ∷ "verdict" ∷ "approval.request"
    ∷ "approval.decision" ∷ "receipt" ∷ "lineage" ∷ "watch.alert" ∷ "gateway.action" ∷ "mesh.opaque"
    ∷ []

unfoldable pub is_topic : String → Bool
is_topic name = includes topics name
