-- ===== src/Sync/Slots.antt =====
-- packages/core/src/v2/sync/outbox.ts: the sends that are under way, and the slots they take.
use latticeag_gateway.Base.{
  ℕ, ◌+◌, ◌-◌, ◌≤◌, ◌<◌, String, true, not, ◌&&◌, ◌≡◌, refl, some, List, [], ◌∷◌, arith, ap,
  if◌then◌else◌, leb, length, any, find, filter,
}
use latticeag_gateway.Base.Table.{Keyed}
use latticeag_gateway.Sync.{Stream, same_stream}
use latticeag_gateway.Sync.Engine.{OutboxBatch, Phase, Send, Engine}
use latticeag_gateway.Sync.Sends.{add_send}
use latticeag_gateway.Sync.Answers.{is_at, without}
use latticeag_gateway.Sync.Moves.{item_key, ItemsLater, Admits, Kept}

pub stream_eq : (s t : Stream) → same_stream s t ≡ true → s ≡ t
unfolding same_stream
stream_eq s t h = ground (arith, h)

pub same_refl : (s : Stream) → same_stream s s ≡ true
unfolding same_stream
same_refl s = ground arith

-- How many sends of a stream there are.
unfoldable pub sends_of : Stream → List Send → ℕ
sends_of t [] = 0
sends_of t (x ∷ xs) = let rest = sends_of t xs in if same_stream x.stream t then 1 + rest else rest

pub record Slots (e : Engine) : Type 0 where
  pub keyed : Keyed item_key e.items
  pub count : e.in_flight_sends ≡ length e.pending_sends
  pub global : length e.pending_sends ≤ 2
  pub streams :
      (t : Stream) → any (same_stream t) e.stream_in_flight ≡ leb 1 (sends_of t e.pending_sends)
  pub one : (t : Stream) → sends_of t e.pending_sends ≤ 1

-- The items go on, and a send of the stream is new.
pub record Added (s : Stream) (e e' : Engine) : Type 0 where
  pub later : ItemsLater e.items e'.items
  pub send : Send
  pub own : send.stream ≡ s
  pub sends : e'.pending_sends ≡ send ∷ e.pending_sends
  pub admits : Admits e e'
  pub count : e'.in_flight_sends ≡ e.in_flight_sends
  pub streams : e'.stream_in_flight ≡ e.stream_in_flight

pub add_send-Added :
    (s : Stream) (members : List String) (batch : OutboxBatch) (phase : Phase) (e e' : Engine)
    → Kept e e'
    → Added s e (add_send s members batch phase e')
add_send-Added s members batch phase e e' h =
    let x : Send = record { stream = s; members = members; batch = batch; phase = phase } in
    record {
      later = h.later;
      send = x;
      own = refl;
      sends = ap (λ l. x ∷ l) h.sends;
      admits = h.admits;
      count = h.count;
      streams = h.streams;
    }

pub Kept-Slots : (e e' : Engine) → Kept e e' → Slots e → Slots e'
Kept-Slots e e' h k = record {
  keyed = h.later.keyed;
  count = rw (h.count, h.sends) k.count;
  global = rw h.sends k.global;
  streams = λ t. rw (h.streams, h.sends) (k.streams t);
  one = λ t. rw h.sends (k.one t);
}

-- A send starts on a stream that has none.
pub start-Slots :
    (s : Stream) (e e' : Engine)
    → Slots e
    → sends_of s e.pending_sends ≡ 0
    → length e.pending_sends < 2
    → Added s
        (record e {
          in_flight_sends = e.in_flight_sends + 1;
          stream_in_flight = s ∷ e.stream_in_flight;
        })
        e'
    → Slots e'
unfolding sends_of
start-Slots s e e' k free room h = record {
  keyed = h.later.keyed;
  count = rw (h.count, h.sends) (ground (arith, k.count));
  global = rw h.sends (ground (arith, room));
  streams = λ t.
      rw (h.streams, h.sends)
        (ground (arith, k.streams t, h.own, free, same_refl s, stream_eq s t, stream_eq t s));
  one = λ t. rw h.sends (ground (arith, k.one t, h.own, free, stream_eq s t));
}

-- What taking the first send that fits does to the counts.
without-sends :
    (s t : Stream) (phase : Phase) (x : Send) (xs : List Send)
    → find (is_at s phase) xs ≡ some x
    → sends_of t xs ≡ (
        if same_stream s t
        then 1 + sends_of t (without s phase xs)
        else sends_of t (without s phase xs))
unfolding sends_of without
without-sends s t phase x [] h = absurd (ground arith)
without-sends s t phase x (y ∷ ys) h =
    ground (arith, h, without-sends s t phase x ys, stream_eq y.stream s)

without-length :
    (s : Stream) (phase : Phase) (x : Send) (xs : List Send)
    → find (is_at s phase) xs ≡ some x
    → length xs ≡ 1 + length (without s phase xs)
unfolding without
without-length s phase x [] h = absurd (ground arith)
without-length s phase x (y ∷ ys) h = ground (arith, h, without-length s phase x ys)

-- A send goes over to its next phase.
pub next-Slots :
    (s : Stream) (phase : Phase) (x : Send) (e e' : Engine)
    → Slots e
    → find (is_at s phase) e.pending_sends ≡ some x
    → Added s (record e { pending_sends = without s phase e.pending_sends }) e'
    → Slots e'
unfolding sends_of
next-Slots s phase x e e' k found h =
    let size = without-length s phase x e.pending_sends found in
    let same : (t : Stream) → sends_of t e'.pending_sends ≡ sends_of t e.pending_sends =
      λ t. rw h.sends (ground (arith, h.own, without-sends s t phase x e.pending_sends found)) in
    record {
      keyed = h.later.keyed;
      count = rw (h.count, h.sends) (ground (arith, k.count, size));
      global = rw h.sends (ground (arith, k.global, size));
      streams = λ t. rw (h.streams, same t) (k.streams t);
      one = λ t. rw (same t) (k.one t);
    }

any-filter :
    (s t : Stream) (l : List Stream)
    → any (same_stream t) (filter (λ u. not (same_stream u s)) l)
      ≡ (not (same_stream t s) && any (same_stream t) l)
any-filter s t [] = ground arith
any-filter s t (u ∷ l) = ground (arith, any-filter s t l, stream_eq t u, stream_eq u s, same_refl s)

-- A send ends.
pub end-Slots :
    (s : Stream) (phase : Phase) (x : Send) (e : Engine)
    → Slots e
    → find (is_at s phase) e.pending_sends ≡ some x
    → Slots (record e {
      pending_sends = without s phase e.pending_sends;
      in_flight_sends = e.in_flight_sends - 1;
      stream_in_flight = filter (λ t. not (same_stream t s)) e.stream_in_flight;
    })
end-Slots s phase x e k found =
    let size = without-length s phase x e.pending_sends found in
    record {
      keyed = k.keyed;
      count = ground (arith, k.count, size);
      global = ground (arith, k.global, size);
      streams = λ t. rw (any-filter s t e.stream_in_flight) (
          ground (
            arith,
            k.streams t,
            k.one t,
            without-sends s t phase x e.pending_sends found,
            stream_eq t s,
            stream_eq s t,
            same_refl s,
          ));
      one = λ t. ground (arith, k.one t, without-sends s t phase x e.pending_sends found);
    }
