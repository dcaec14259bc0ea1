-- ===== src/Daemon/Envelope/Depth.antt =====
-- packages/core/src/v2/protocol/envelope.ts: jsonDepth stops early, and still tells the depth up to its limit.
use latticeag_gateway.Base.{ℕ, suc, ◌+◌, ◌≤◌, ◌<◌, ◌≡◌, ◌↔◌, arith, if◌then◌else◌}
use latticeag_gateway.Protocol.Values.{
  Value, Fields, Items, null, bool, int, fraction, str, obj, arr, end, field, nil, cons,
}
use latticeag_gateway.Daemon.Envelope.{
  json_depth, items_depth, fields_depth, larger, is_over, max_json_depth,
}

-- The nesting of a value: a scalar has none, an object or array one more than the deepest of its parts.
unfoldable mutual
  pub nesting : Value → ℕ
  nesting (arr vs) = suc (deepest_item vs)
  nesting (obj o) = suc (deepest_field o)
  nesting null = 0
  nesting (bool b) = 0
  nesting (int n) = 0
  nesting fraction = 0
  nesting (str s) = 0

  pub deepest_item : Items → ℕ
  deepest_item nil = 0
  deepest_item (cons v vs) = larger (nesting v) (deepest_item vs)

  pub deepest_field : Fields → ℕ
  deepest_field end = 0
  deepest_field (field k v o) = larger (nesting v) (deepest_field o)

-- The result of a stopped search: exact up to the limit, beyond the limit where the truth is.
abbrev pub Tells : ℕ → ℕ → Type 0
Tells truth result = (truth ≤ 32 → result ≡ truth) × (32 < truth → 32 < result)

stop_or :
    (depth inner result : ℕ)
    → Tells (suc depth + inner) result
    → Tells (depth + suc inner) (if is_over (suc depth) then suc depth else result)
stop_or depth inner result h = (λ e. ground (arith, h.0), λ e. ground (arith, h.1))

turn :
    (depth top here rest result v : ℕ)
    → Tells (suc depth + here) v
    → Tells (larger (larger top v) (suc depth + rest)) result
    → Tells
        (larger top (suc depth + larger here rest))
        (if is_over (larger top v) then larger top v else result)
turn depth top here rest result v h k =
    (λ e. ground (arith, h.0, k.0), λ e. ground (arith, h.1, k.1))

at_least :
    (low inner result : ℕ) → Tells (larger low (low + inner)) result → Tells (low + inner) result
at_least low inner result h = (λ e. ground (arith, h.0), λ e. ground (arith, h.1))

mutual
  unfolding json_depth nesting

  tells : (v : Value) (depth : ℕ) → Tells (depth + nesting v) (json_depth v depth)
  tells null depth = (λ e. omega arith, λ e. omega arith)
  tells (bool b) depth = (λ e. omega arith, λ e. omega arith)
  tells (int n) depth = (λ e. omega arith, λ e. omega arith)
  tells fraction depth = (λ e. omega arith, λ e. omega arith)
  tells (str s) depth = (λ e. omega arith, λ e. omega arith)
  tells (arr vs) depth = stop_or depth (deepest_item vs) (items_depth vs depth (suc depth)) (
      at_least (suc depth) (deepest_item vs) (items_depth vs depth (suc depth))
        (Tells-items vs depth (suc depth) (omega arith)))
  tells (obj o) depth = stop_or depth (deepest_field o) (fields_depth o depth (suc depth)) (
      at_least (suc depth) (deepest_field o) (fields_depth o depth (suc depth))
        (Tells-fields o depth (suc depth) (omega arith)))

  Tells-items :
      (vs : Items) (depth top : ℕ)
      → suc depth ≤ top
      → Tells (larger top (suc depth + deepest_item vs)) (items_depth vs depth top)
  Tells-items nil depth top low = (λ e. ground arith, λ e. ground arith)
  Tells-items (cons v vs) depth top low =
      turn depth top (nesting v) (deepest_item vs)
        (items_depth vs depth (larger top (json_depth v (suc depth)))) (json_depth v (suc depth))
        (tells v (suc depth))
        (Tells-items vs depth (larger top (json_depth v (suc depth))) (ground arith))

  Tells-fields :
      (o : Fields) (depth top : ℕ)
      → suc depth ≤ top
      → Tells (larger top (suc depth + deepest_field o)) (fields_depth o depth top)
  Tells-fields end depth top low = (λ e. ground arith, λ e. ground arith)
  Tells-fields (field k v o) depth top low =
      turn depth top (nesting v) (deepest_field o)
        (fields_depth o depth (larger top (json_depth v (suc depth)))) (json_depth v (suc depth))
        (tells v (suc depth))
        (Tells-fields o depth (larger top (json_depth v (suc depth))) (ground arith))

-- jsonDepth is at most 32 exactly for a value whose nesting is at most 32, although it stops before it has
-- seen all of a deeper value.
pub depth_exact : (v : Value) → (json_depth v 0 ≤ max_json_depth) ↔ (nesting v ≤ max_json_depth)
depth_exact v =
    let (exact, beyond) = tells v 0 in (λ h. ground (arith, beyond), λ h. ground (arith, exact))
