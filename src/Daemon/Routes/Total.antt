-- ===== src/Daemon/Routes/Total.antt =====
-- packages/gateway-daemon/src/rpc/dispatch.ts: every method of the registry is routed.
use latticeag_gateway.Base.{
  String, Bool, true, false, ◌≡◌, refl, Option, none, some, [], ◌∷◌, arith, eq_iff, ◌=ₛ◌, all, inl,
  inr, Bool-cases, &&-left, &&-right,
}
use latticeag_gateway.Base.Table.{Table, get}
use latticeag_gateway.Protocol.Methods.{MethodSpec, rpc_methods}
use latticeag_gateway.Daemon.Routes.{Group, method_service_map}

abbrev is_there : {V : Type 0} → Option V → Bool
is_there none = false
is_there (some v) = true

-- What holds of every key of a table holds of a key that is found.
all-get :
    {V : Type 0} (p : String → Bool) (t : Table V) (k : String) (v : V)
    → all (λ row. p row.0) t ≡ true
    → get k t ≡ some v
    → p k ≡ true
unfolding get
all-get p [] k v h e = absurd (ground arith)
all-get p ((j, w) ∷ t) k v h e = elim (Bool-cases (j =ₛ k)) [
  | inl same ↦
      let own : j ≡ k = (eq_iff j k).0 same in rw (← own) (&&-left (p j) (all (λ row. p row.0) t) h)
  | inr differs ↦
      all-get p t k v (&&-right (p j) (all (λ row. p row.0) t) h) (ground (arith, e, differs))
]

all_routed : all (λ row. is_there (get row.0 method_service_map)) rpc_methods ≡ true
unfolding get rpc_methods method_service_map
all_routed = refl

found : {V : Type 0} (o : Option V) → is_there o ≡ true → (v : V) × (o ≡ some v)
found none h = absurd (ground arith)
found (some v) h = (v, refl)

-- Every method of the registry has a service and a function of it to run.
pub routed :
    (method : String) (spec : MethodSpec)
    → get method rpc_methods ≡ some spec
    → (route : Group × String) × (get method method_service_map ≡ some route)
routed method spec h =
    found (get method method_service_map)
      (all-get (λ m. is_there (get m method_service_map)) rpc_methods method spec all_routed h)
