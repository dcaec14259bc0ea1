-- ===== src/Daemon/Values/Scrubbed.antt =====
-- packages/gateway-daemon/src/rpc/dispatch.ts: no credential is left under its key in what is scrubbed.
use latticeag_gateway.Base.{
  Bool, true, false, not, ◌&&◌, ◌||◌, ◌≡◌, refl, ◌=ₛ◌, includes, if◌then◌else◌,
}
use latticeag_gateway.Protocol.Values.{
  Value, Fields, Items, null, bool, int, fraction, str, obj, arr, end, field, nil, cons,
}
use latticeag_gateway.Daemon.Values.{scrub_params, scrub_items, scrub_fields, redact_keys}

abbrev is_mark : Value → Bool
is_mark (str s) = s =ₛ "[redacted]"
is_mark _ = false

-- Somewhere in the value a field of a credential's name holds something else than the mark.
unfoldable mutual
  pub leaks : Value → Bool
  leaks (arr vs) = item_leaks vs
  leaks (obj o) = field_leaks o
  leaks (str s) = false
  leaks null = false
  leaks (bool b) = false
  leaks (int n) = false
  leaks fraction = false

  pub item_leaks : Items → Bool
  item_leaks nil = false
  item_leaks (cons v vs) = leaks v || item_leaks vs

  pub field_leaks : Fields → Bool
  field_leaks end = false
  field_leaks (field k v o) =
      (includes redact_keys k && not (is_mark v)) || leaks v || field_leaks o

one_field :
    (secret : Bool) (v : Value) (rest : Bool)
    → leaks v ≡ false
    → rest ≡ false
    → ((secret && not (is_mark (if secret then str "[redacted]" else v)))
        || leaks (if secret then str "[redacted]" else v)
        || rest)
      ≡ false
unfolding leaks
one_field true v rest h k = k
one_field false v rest h k = rw (h, k) refl

mutual
  unfolding scrub_params leaks

  scrubbed_value : (v : Value) → leaks (scrub_params v) ≡ false
  scrubbed_value (arr vs) = scrubbed_items vs
  scrubbed_value (obj o) = scrubbed_fields o
  scrubbed_value (str s) = refl
  scrubbed_value null = refl
  scrubbed_value (bool b) = refl
  scrubbed_value (int n) = refl
  scrubbed_value fraction = refl

  scrubbed_items : (vs : Items) → item_leaks (scrub_items vs) ≡ false
  scrubbed_items nil = refl
  scrubbed_items (cons v vs) = rw (scrubbed_value v, scrubbed_items vs) refl

  scrubbed_fields : (o : Fields) → field_leaks (scrub_fields o) ≡ false
  scrubbed_fields end = refl
  scrubbed_fields (field k v o) =
      one_field (includes redact_keys k) (scrub_params v) (field_leaks (scrub_fields o))
        (scrubbed_value v) (scrubbed_fields o)

-- Whatever the value, what is scrubbed holds under no credential's name, at any depth, anything but the mark
-- "[redacted]".
pub scrubbed : (v : Value) → leaks (scrub_params v) ≡ false
scrubbed v = scrubbed_value v
