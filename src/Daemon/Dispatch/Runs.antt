-- ===== src/Daemon/Dispatch/Runs.antt =====
-- packages/gateway-daemon/src/rpc/dispatch.ts: many calls at once, in any order of arrivals and answers.
use latticeag_gateway.Base.{
  ℕ, zero, suc, String, Bool, true, false, ◌≡◌, refl, inl, inr, Option, none, some, List, [], ◌∷◌,
  arith, eq_iff, eq_refl, not, ◌&&◌, ◌=ₛ◌, filter, find, All, Bool-cases,
}
use latticeag_gateway.Protocol.Values.{Value}
use latticeag_gateway.Daemon.Auth.{PeerTokenStore}
use latticeag_gateway.Daemon.Dispatch.{ReceiptPointer, Context, Call, Mapped, map_thrown}
use latticeag_gateway.Daemon.Dispatch.Steps.{
  SavedBinding, AuditAction, Pending, State, principal_key, is_row, lookup, bind_operation, begin,
  succeeded, failed_outcome,
}
use latticeag_gateway.Daemon.Dispatch.Finish.{
  Called, returns, throws, finish, finish_answer, finish_failed, finish_sealed, finish_bound,
  wants_receipt, make_action, binding_of, bind_if,
}

-- A call that arrives, and the end of a call that waits: which one, what its service gives and what the
-- sink of receipts gives.
pub data Event (G : Type 0) : Type 0 where
  arrives : Context → Call → G → Event G
  ends : Context → ℕ → Called → Option ReceiptPointer → Event G

unfoldable pub take_waiting : ℕ → List Pending → Option (Pending × List Pending)
take_waiting n [] = none
take_waiting zero (p ∷ ps) = some (p, ps)
take_waiting (suc n) (p ∷ ps) = elim (take_waiting n ps) [
  | none ↦ none
  | some (q, rest) ↦ some (q, p ∷ rest)
]

abbrev pub end_one :
    {N : Type 0}
    → Context
    → Called
    → Option ReceiptPointer
    → Option (Pending × List Pending)
    → State N
    → State N
end_one c called sealed none s = s
end_one c called sealed (some (p, rest)) s =
    (finish c called sealed p (record s { waiting = rest })).1

module _ {G N : Type 0} (t : PeerTokenStore G N) where
  unfoldable pub step : Event G → State N → State N
  step (arrives c call g) s = (begin t c call g s).1
  step (ends c n called sealed) s = end_one c called sealed (take_waiting n s.waiting) s

  unfoldable pub run : List (Event G) → State N → State N
  unfolding step
  run [] s = s
  run (e ∷ es) s = run es (step e s)

-- The call has the operations table.
abbrev pub tracks : {G : Type 0} → Event G → Bool
tracks (arrives c call g) = c.idempotency
tracks (ends c n called sealed) = true

abbrev has_hash : Option String → Bool
has_hash none = false
has_hash (some h) = true

-- The waiting call will bind the id for the principal.
abbrev pub claims : String → String → Pending → Bool
claims key id p =
    has_hash p.request_hash && principal_key p.request p.principal =ₛ key && p.request.id =ₛ id

abbrev pub Unclaimed : String → String → List Pending → Type 0
Unclaimed key id ps = All (λ p. claims key id p ≡ false) ps

-- The id is bound, and nothing under way will bind it again.
abbrev pub Bound : {N : Type 0} → String → String → SavedBinding → State N → Type 0
Bound key id b s = (lookup key id s.bindings ≡ some b) × Unclaimed key id s.waiting

find-filter :
    (p q : SavedBinding → Bool) (bs : List SavedBinding)
    → ((x : SavedBinding) → p x ≡ true → q x ≡ true)
    → find p (filter q bs) ≡ find p bs
find-filter p q [] h = refl
find-filter p q (x ∷ bs) h = ground (arith, h x, find-filter p q bs h)

pub lookup-bind :
    (b x : SavedBinding) (key id : String) (bs : List SavedBinding)
    → is_row key id b ≡ false
    → lookup key id bs ≡ some x
    → lookup key id (bind_operation b bs) ≡ some x
unfolding lookup bind_operation
lookup-bind b x key id bs differs h =
    rw
      (
        differs,
        find-filter (is_row key id) (λ y. not (is_row b.principal_key b.id y)) bs
            (λ y e. ground (
              arith,
              e,
              differs,
              eq_iff b.principal_key key,
              eq_iff b.id id,
              eq_iff y.principal_key key,
              eq_iff y.id id,
              eq_iff y.principal_key b.principal_key,
              eq_iff y.id b.id,
            )),
      )
      h

pub lookup-bind_self :
    (b : SavedBinding) (bs : List SavedBinding)
    → lookup b.principal_key b.id (bind_operation b bs) ≡ some b
unfolding lookup bind_operation
lookup-bind_self b bs = ground (arith, eq_refl b.principal_key, eq_refl b.id)

module _ {N : Type 0} (key id : String) (b : SavedBinding) where
  -- The end of a call that does not claim the id keeps the binding, and adds no waiting call.
  Bound-sealed :
      (a : Option AuditAction) (sealed : Option ReceiptPointer) (p : Pending) (v : Value)
      (s : State N)
      → claims key id p ≡ false
      → Bound key id b s
      → Bound key id b (finish_sealed a sealed p v s).1
  unfolding finish_sealed
  Bound-sealed (some a) (some ptr) p v s free h = (bound-if p.request_hash refl, h.1)
    where
      bound-if :
          (o : Option String)
          → p.request_hash ≡ o
          → lookup key id (bind_if p v (some ptr) o s.bindings) ≡ some b
      bound-if none e = h.0
      bound-if (some hash) e =
          lookup-bind (binding_of p hash v (some ptr)) b key id s.bindings (ground (arith, free, e))
            h.0
  Bound-sealed (some a) none p v s free h = h
  Bound-sealed none sealed p v s free h = h

  Bound-finish_bound :
      (binds : Bool) (o : Option String) (sealed : Option ReceiptPointer) (p : Pending) (v : Value)
      (s : State N)
      → p.request_hash ≡ o
      → claims key id p ≡ false
      → Bound key id b s
      → Bound key id b (finish_bound binds o sealed p v s).1
  unfolding finish_bound
  Bound-finish_bound true (some hash) (some ptr) p v s e free h = (
    lookup-bind (binding_of p hash v none) b key id s.bindings (ground (arith, free, e)) h.0,
    h.1,
  )
  Bound-finish_bound true (some hash) none p v s e free h = h
  Bound-finish_bound true none sealed p v s e free h = h
  Bound-finish_bound false o sealed p v s e free h = h

  Bound-failed :
      (a : Option AuditAction) (sealed : Option ReceiptPointer) (p : Pending) (m : Mapped)
      (s : State N)
      → Bound key id b s
      → Bound key id b (finish_failed a sealed p m s).1
  unfolding finish_failed
  Bound-failed (some a) (some ptr) p m s h = h
  Bound-failed (some a) none p m s h = h
  Bound-failed none sealed p m s h = h

  pub Bound-finish :
      (c : Context) (called : Called) (sealed : Option ReceiptPointer) (p : Pending) (s : State N)
      → claims key id p ≡ false
      → Bound key id b s
      → Bound key id b (finish_answer c called sealed p s).1
  unfolding finish_answer
  Bound-finish c (throws x) sealed p s free h = elim (Bool-cases (wants_receipt c p)) [
    | inl wanted ↦ rw wanted (
        Bound-failed (make_action c p failed_outcome (some (map_thrown x).code) none) sealed p
          (map_thrown x) s h)
    | inr unwanted ↦ rw unwanted h
  ]
  Bound-finish c (returns v) sealed p s free h = elim (Bool-cases (wants_receipt c p)) [
    | inl wanted ↦
        rw wanted (Bound-sealed (make_action c p succeeded none (some v)) sealed p v s free h)
    | inr unwanted ↦
        rw unwanted
          (Bound-finish_bound (c.receipts && c.binds) p.request_hash sealed p v s refl free h)
  ]
