-- ===== src/Daemon/Envelope/RoundTrip.antt =====
-- packages/core/src/v2/protocol/envelope.ts: the envelope that a client writes is read back.
use latticeag_gateway.Base.{◌≤◌, ◌<◌, ◌≡◌, true, arith, le→leb}
use latticeag_gateway.Base.Int.{pos}
use latticeag_gateway.Protocol.Lexical.{is_id}
use latticeag_gateway.Protocol.Values.{Fields, int, str, obj, end, field}
use latticeag_gateway.Exec.{ok}
use latticeag_gateway.Daemon.Envelope.{
  Request, validate_envelope_request, read_envelope, json_depth, is_method_text, max_json_depth,
  foreign_key, missing_key,
}
use latticeag_gateway.Daemon.Envelope.Depth.{nesting, depth_exact}

-- The envelope of a client.
abbrev pub envelope_fields : Request → Fields
envelope_fields r = field "v" (int (pos 2)) (
    field "id" (str r.id) (
      field "workspace" (str r.workspace)
        (field "method" (str r.method) (field "params" r.params end))))

read-envelope_fields :
    (r : Request)
    → is_id r.id ≡ true
    → is_id r.workspace ≡ true
    → is_method_text r.method ≡ true
    → read_envelope (envelope_fields r) ≡ ok r
unfolding read_envelope foreign_key missing_key
read-envelope_fields r i w m = ground (arith, i, w, m)

shallow :
    (r : Request)
    → nesting r.params < max_json_depth
    → nesting (obj (envelope_fields r)) ≤ max_json_depth
unfolding nesting
shallow r h = ground arith

-- The envelope that a client writes for a request is read back as that request, if the two ids and the name
-- of the method are of their form and the parameters are nested at most 31 deep.
pub validate-envelope_fields :
    (r : Request)
    → is_id r.id ≡ true
    → is_id r.workspace ≡ true
    → is_method_text r.method ≡ true
    → nesting r.params < max_json_depth
    → validate_envelope_request (obj (envelope_fields r)) ≡ ok r
unfolding validate_envelope_request
validate-envelope_fields r i w m h =
    let fits = (depth_exact (obj (envelope_fields r))).1 (shallow r h) in
    rw (le→leb (json_depth (obj (envelope_fields r)) 0) max_json_depth fits)
      (read-envelope_fields r i w m)
