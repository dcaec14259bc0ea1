-- ===== src/Daemon/Envelope.antt =====
-- packages/core/src/v2/protocol/envelope.ts: validateEnvelopeRequest, on a value that JSON.parse gave.
pub mod Depth
pub mod RoundTrip
use latticeag_gateway.Base.{
  ℕ, suc, ◌+◌, ◌*◌, String, Bool, false, not, ◌&&◌, ◌||◌, Option, none, some, List, [], ◌∷◌, ltb,
  leb, ◌==◌, ◌=ₛ◌, if◌then◌else◌, includes,
}
use latticeag_gateway.Base.Int.{pos}
use latticeag_gateway.Protocol.Errors.{json_invalid, schema_invalid, schema_unsupported, plain, at}
use latticeag_gateway.Protocol.Lexical.{is_id, utf8_bytes}
use latticeag_gateway.Protocol.Values.{
  Value, Fields, Items, null, bool, int, fraction, str, obj, arr, end, field, nil, cons, as_object,
  at_key, string_at, keys,
}
use latticeag_gateway.Exec.{Result, ok, err, or_err}
use latticeag_gateway.Exec.Checks.{◌>>=◌, ◌>>◌, require}

pub record Request : Type 0 where
  pub id : String
  pub workspace : String
  pub method : String
  pub params : Value

-- ENVELOPE_LIMITS
abbrev pub request_body_bytes : ℕ
request_body_bytes = 2 * 1024 * 1024

abbrev pub max_json_depth : ℕ
max_json_depth = 32

abbrev pub max_string_bytes : ℕ
max_string_bytes = 1024

abbrev pub no_receipt_methods : List String
no_receipt_methods =
    "daemon.hello" ∷ "run.heartbeat" ∷ "events.ack" ∷ "agent.challenge" ∷ "agent.renew"
    ∷ "ui.session.exchange" ∷ []

abbrev pub exempt_keys : List String
exempt_keys = "pair" ∷ "key" ∷ "profiles" ∷ "interfaces" ∷ "capabilities" ∷ []

-- IDEMPOTENCY_EXEMPT_BINDING
abbrev pub exempt_binding : List (String × List String)
exempt_binding =
    ("agent.register", exempt_keys)
    ∷ ("agent.pair.propose", exempt_keys)
    ∷ ("agent.renew", "peer" ∷ "refresh_hash" ∷ [])
    ∷ []

abbrev pub larger : ℕ → ℕ → ℕ
larger a b = if ltb a b then b else a

-- `max > ENVELOPE_LIMITS.maxJsonDepth + 1`
abbrev pub is_over : ℕ → Bool
is_over max = ltb (max_json_depth + 1) max

-- `jsonDepth(value, depth)`; in the two loops `top` is `max`.
unfoldable mutual
  pub json_depth : Value → ℕ → ℕ
  json_depth null depth = depth
  json_depth (bool b) depth = depth
  json_depth (int n) depth = depth
  json_depth fraction depth = depth
  json_depth (str s) depth = depth
  json_depth (arr vs) depth =
      let deeper = items_depth vs depth (suc depth) in
      if is_over (suc depth) then suc depth else deeper
  json_depth (obj o) depth =
      let deeper = fields_depth o depth (suc depth) in
      if is_over (suc depth) then suc depth else deeper

  pub items_depth : Items → ℕ → ℕ → ℕ
  items_depth nil depth top = top
  items_depth (cons v vs) depth top =
      let next = larger top (json_depth v (suc depth)) in
      let rest = items_depth vs depth next in if is_over next then next else rest

  pub fields_depth : Fields → ℕ → ℕ → ℕ
  fields_depth end depth top = top
  fields_depth (field k v o) depth top =
      let next = larger top (json_depth v (suc depth)) in
      let rest = fields_depth o depth next in if is_over next then next else rest

abbrev pub request_keys : List String
request_keys = "v" ∷ "id" ∷ "workspace" ∷ "method" ∷ "params" ∷ []

-- The first key that is not of the envelope.
unfoldable pub foreign_key : List String → Option String
foreign_key [] = none
foreign_key (k ∷ ks) = let rest = foreign_key ks in if includes request_keys k then rest else some k

-- The first key of the envelope that is missing.
unfoldable pub missing_key : List String → Fields → Option String
missing_key [] o = none
missing_key (k ∷ ks) o = let rest = missing_key ks o in if includes (keys o) k then rest else some k

abbrev pub refuse_key : Option String → Result (Unit {0})
refuse_key none = ok tt
refuse_key (some k) = err (at schema_invalid k)

abbrev pub is_two : Option Value → Bool
is_two (some (int (pos n))) = n == 2
is_two _ = false

-- A field that is a text and passes a test.
abbrev pub text_where : (String → Bool) → String → Fields → Result String
text_where p k o = do
  s ← or_err (at schema_invalid k) (string_at k o)
  require (p s) (at schema_invalid k)
  ok s

abbrev pub is_method_text : String → Bool
is_method_text s = not (s =ₛ "") && leb (utf8_bytes s) max_string_bytes

abbrev pub or_null : Option Value → Value
or_null none = null
or_null (some v) = v

unfoldable pub read_envelope : Fields → Result Request
unfolding foreign_key missing_key
read_envelope o = do
  refuse_key (foreign_key (keys o))
  refuse_key (missing_key request_keys o)
  require (is_two (at_key "v" o)) (at schema_unsupported "v")
  id ← text_where is_id "id" o
  workspace ← text_where is_id "workspace" o
  method ← text_where is_method_text "method" o
  ok (record {
    id = id;
    workspace = workspace;
    method = method;
    params = or_null (at_key "params" o);
  })

unfoldable pub validate_envelope_request : Value → Result Request
unfolding json_depth read_envelope
validate_envelope_request v = do
  o ← or_err (plain schema_invalid) (as_object v)
  require (leb (json_depth v 0) max_json_depth) (plain json_invalid)
  read_envelope o
