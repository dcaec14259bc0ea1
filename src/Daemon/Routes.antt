-- ===== src/Daemon/Routes.antt =====
-- packages/gateway-daemon/src/rpc/dispatch.ts: which service runs a method, and what stands for a missing one.
pub mod Total
use latticeag_gateway.Base.{String, List, [], ◌∷◌}
use latticeag_gateway.Base.Table.{Table}
use latticeag_gateway.Protocol.Errors.{
  ErrorCode, runtime_unsupported, storage_unavailable, cap_adapter_unavailable, network_unavailable,
}

-- The keys of GatewayServices.
pub data Group : Type 0 where
  daemon config run events objects receipt lineage operation : Group
  product agent approval ui sync cloud catalog : Group

-- METHOD_SERVICE_MAP
unfoldable pub method_service_map : Table (Group × String)
method_service_map =
    ("daemon.hello", (daemon, "hello"))
    ∷ ("daemon.status", (daemon, "status"))
    ∷ ("daemon.stop", (daemon, "stop"))
    ∷ ("config.get", (config, "get"))
    ∷ ("config.validate", (config, "validate"))
    ∷ ("config.apply", (config, "apply"))
    ∷ ("run.register", (run, "register"))
    ∷ ("run.heartbeat", (run, "heartbeat"))
    ∷ ("run.finish", (run, "finish"))
    ∷ ("events.publish", (events, "publish"))
    ∷ ("events.query", (events, "query"))
    ∷ ("events.subscribe", (events, "subscribe"))
    ∷ ("events.ack", (events, "ack"))
    ∷ ("objects.put", (objects, "put"))
    ∷ ("objects.get", (objects, "get"))
    ∷ ("receipt.get", (receipt, "get"))
    ∷ ("lineage.query", (lineage, "query"))
    ∷ ("operation.get", (operation, "get"))
    ∷ ("operation.cancel", (operation, "cancel"))
    ∷ ("product.plan", (product, "plan"))
    ∷ ("product.install", (product, "install"))
    ∷ ("product.uninstall", (product, "uninstall"))
    ∷ ("product.update", (product, "update"))
    ∷ ("product.rollback", (product, "rollback"))
    ∷ ("product.list", (product, "list"))
    ∷ ("product.health", (product, "health"))
    ∷ ("agent.pair.create", (agent, "pairCreate"))
    ∷ ("agent.pair.propose", (agent, "pairPropose"))
    ∷ ("agent.pair.get", (agent, "pairGet"))
    ∷ ("agent.pair.approve", (agent, "pairApprove"))
    ∷ ("agent.pair.cancel", (agent, "pairCancel"))
    ∷ ("agent.challenge", (agent, "challenge"))
    ∷ ("agent.register", (agent, "register"))
    ∷ ("agent.renew", (agent, "renew"))
    ∷ ("agent.list", (agent, "list"))
    ∷ ("agent.revoke", (agent, "revoke"))
    ∷ ("agent.disconnect", (agent, "disconnect"))
    ∷ ("approval.request", (approval, "request"))
    ∷ ("approval.list", (approval, "list"))
    ∷ ("approval.get", (approval, "get"))
    ∷ ("approval.decide", (approval, "decide"))
    ∷ ("approval.cancel", (approval, "cancel"))
    ∷ ("ui.session.create", (ui, "sessionCreate"))
    ∷ ("ui.session.exchange", (ui, "sessionExchange"))
    ∷ ("ui.session.revoke", (ui, "sessionRevoke"))
    ∷ ("sync.status", (sync, "status"))
    ∷ ("sync.pause", (sync, "pause"))
    ∷ ("sync.resume", (sync, "resume"))
    ∷ ("sync.configure", (sync, "configure"))
    ∷ ("sync.flush", (sync, "flush"))
    ∷ ("cloud.pair.begin", (cloud, "pairBegin"))
    ∷ ("cloud.pair.complete", (cloud, "pairComplete"))
    ∷ ("cloud.pair.revoke", (cloud, "pairRevoke"))
    ∷ ("catalog.refresh", (catalog, "refresh"))
    ∷ ("catalog.search", (catalog, "search"))
    ∷ ("catalog.show", (catalog, "show"))
    ∷ ("catalog.pin", (catalog, "pin"))
    ∷ ("catalog.unpin", (catalog, "unpin"))
    ∷ []

-- UNAVAILABLE_BY_DOMAIN
unfoldable pub unavailable_by_domain : Group → ErrorCode
unavailable_by_domain daemon = runtime_unsupported
unavailable_by_domain receipt = cap_adapter_unavailable
unavailable_by_domain lineage = cap_adapter_unavailable
unavailable_by_domain product = cap_adapter_unavailable
unavailable_by_domain sync = network_unavailable
unavailable_by_domain cloud = network_unavailable
unavailable_by_domain _ = storage_unavailable

-- TOKEN_BEARING_METHODS
abbrev pub token_bearing_methods : List String
token_bearing_methods =
    "agent.register" ∷ "agent.renew" ∷ "agent.pair.create" ∷ "agent.pair.propose" ∷ "agent.pair.get"
    ∷ "agent.challenge" ∷ "ui.session.create" ∷ "ui.session.exchange" ∷ []
