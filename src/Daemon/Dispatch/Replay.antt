-- ===== src/Daemon/Dispatch/Replay.antt =====
-- packages/gateway-daemon/src/rpc/dispatch.ts: a row of the operations table stays through all arrivals and ends.
use latticeag_gateway.Base.{
  ℕ, zero, suc, String, true, false, ◌≡◌, refl, inl, inr, Option, none, some, List, [], ◌∷◌, arith,
  eq_iff, ◌&&◌, ◌=ₛ◌, if◌then◌else◌, All, Bool-cases, Option-cases,
}
use latticeag_gateway.Exec.{Result, ok, err}
use latticeag_gateway.Protocol.Methods.{MethodSpec}
use latticeag_gateway.Daemon.Auth.{Principal, PeerTokenStore}
use latticeag_gateway.Daemon.Envelope.{Request}
use latticeag_gateway.Daemon.Values.{binding_value}
use latticeag_gateway.Daemon.Dispatch.{ReceiptPointer, Context, Call, read_request, authorize}
use latticeag_gateway.Daemon.Dispatch.Steps.{
  SavedBinding, Pending, State, principal_key, lookup, Begun, replied, waits, begin, begin_read,
  begin_request, bind_stage, admitted, note_waiting, with_hash, pending, replay_or_wait,
}
use latticeag_gateway.Daemon.Dispatch.Finish.{Called, finish, answer_of}
use latticeag_gateway.Daemon.Dispatch.Runs.{
  Event, arrives, ends, take_waiting, end_one, step, run, tracks, claims, Unclaimed, Bound,
  Bound-finish,
}

module _ (key id : String) where
  abbrev Fresh : Begun → Type 0
  Fresh (replied x) = Unit {0}
  Fresh (waits p) = claims key id p ≡ false

  fresh_or_old :
      (c : Context) (b : SavedBinding) (bs : List SavedBinding) (r : Request) (spec : MethodSpec)
      (p : Principal) (h : String) (o : Option SavedBinding)
      → lookup (principal_key r p) r.id bs ≡ o
      → lookup key id bs ≡ some b
      → Fresh (replay_or_wait r spec p h o)
  fresh_or_old c b bs r spec p h (some x) e k = tt
  fresh_or_old c b bs r spec p h none e k =
      elim (Bool-cases (principal_key r p =ₛ key && r.id =ₛ id)) [
        | inr other ↦ other
        | inl same ↦
            let is_key : principal_key r p ≡ key =
              ground (arith, same, eq_iff (principal_key r p) key) in
            let is_id : r.id ≡ id = ground (arith, same, eq_iff r.id id) in
            let found : none ≡ some b = rw (← e, is_key, is_id) k in absurd (ground (arith, found))
      ]

  fresh_hash :
      (c : Context) (b : SavedBinding) (bs : List SavedBinding) (r : Request) (spec : MethodSpec)
      (p : Principal) (o : Option String)
      → c.idempotency ≡ true
      → lookup key id bs ≡ some b
      → Fresh (with_hash c bs r spec p o)
  fresh_hash c b bs r spec p none on k = tt
  fresh_hash c b bs r spec p (some h) on k =
      rw on (fresh_or_old c b bs r spec p h (lookup (principal_key r p) r.id bs) refl k)

  fresh_stage :
      (c : Context) (b : SavedBinding) (bs : List SavedBinding) (r : Request) (spec : MethodSpec)
      (p : Principal)
      → c.idempotency ≡ true
      → lookup key id bs ≡ some b
      → Fresh (bind_stage c bs r spec p)
  unfolding bind_stage
  fresh_stage c b bs r spec p on k =
      let o = c.hash_value (binding_value c.auth.sha256 r.method r.params) in
      elim spec.mutating
        as (λ m. Fresh (if m then with_hash c bs r spec p o else pending r spec p none)) [
          | true ↦ fresh_hash c b bs r spec p o on k
          | false ↦ refl
        ]

  fresh_admitted :
      (c : Context) (b : SavedBinding) (bs : List SavedBinding) (r : Request)
      (a : Result (MethodSpec × Principal))
      → c.idempotency ≡ true
      → lookup key id bs ≡ some b
      → Fresh (admitted c r a bs)
  fresh_admitted c b bs r (err e) on k = tt
  fresh_admitted c b bs r (ok (spec, p)) on k = fresh_stage c b bs r spec p on k

  module _ {G N : Type 0} (t : PeerTokenStore G N) (b : SavedBinding) where
    Bound-note :
        (x : Begun) (s : State N) → Fresh x → Bound key id b s → Bound key id b (note_waiting x s)
    Bound-note (replied x) s f h = h
    Bound-note (waits p) s f h = (h.0, (f, h.1))

    Bound-read :
        (c : Context) (call : Call) (o : Result Request) (g : G) (s : State N)
        → c.idempotency ≡ true
        → Bound key id b s
        → Bound key id b (begin_read t c call o g s).1
    unfolding begin_read begin_request
    Bound-read c call (err e) g s on h = h
    Bound-read c call (ok r) g s on h =
        let a = authorize t c call r g s.nonces in
        Bound-note (admitted c r a.0 s.bindings) (record s { nonces = a.1 })
          (fresh_admitted c b s.bindings r a.0 on h.0) h

    taken :
        (n : ℕ) (ps : List Pending) (p : Pending) (rest : List Pending)
        → Unclaimed key id ps
        → take_waiting n ps ≡ some (p, rest)
        → (claims key id p ≡ false) × Unclaimed key id rest
    unfolding take_waiting
    taken n [] p rest h e = absurd (ground arith)
    taken zero (q ∷ ps) p rest h e =
        let same : q ≡ p = ground (arith, e) in
        let tail : ps ≡ rest = ground (arith, e) in rw (← same, ← tail) h
    taken (suc n) (q ∷ ps) p rest h e = elim (Option-cases (take_waiting n ps)) [
      | inl nothing ↦ absurd (ground (arith, e, nothing))
      | inr ((p', rest'), is) ↦
          let (free, others) = taken n ps p' rest' h.1 is in
          let same : p' ≡ p = ground (arith, e, is) in
          let tail : (q ∷ rest') ≡ rest = ground (arith, e, is) in
          (rw (← same) free, rw (← tail) (h.0, others))
    ]

    Bound-end :
        (c : Context) (called : Called) (sealed : Option ReceiptPointer) (n : ℕ)
        (o : Option (Pending × List Pending)) (s : State N)
        → take_waiting n s.waiting ≡ o
        → Bound key id b s
        → Bound key id b (end_one c called sealed o s)
    unfolding finish
    Bound-end c called sealed n none s e h = h
    Bound-end c called sealed n (some (p, rest)) s e h =
        let (free, others) = taken n s.waiting p rest h.1 e in
        Bound-finish key id b c (answer_of c p.request.method called) sealed p
          (record s { waiting = rest }) free (h.0, others)

    pub Bound-run :
        (es : List (Event G)) (s : State N)
        → All (λ e. tracks e ≡ true) es
        → Bound key id b s
        → Bound key id b (run t es s)
    unfolding run step begin
    Bound-run [] s on h = h
    Bound-run (arrives c call g ∷ es) s on h =
        Bound-run es (begin t c call g s).1 on.1
          (Bound-read c call (read_request call.body) g s on.0 h)
    Bound-run (ends c n called sealed ∷ es) s on h =
        Bound-run es (end_one c called sealed (take_waiting n s.waiting) s) on.1
          (Bound-end c called sealed n (take_waiting n s.waiting) s refl h)
