-- ===== src/Emitter/Delivery.antt =====
-- An emitter and a `Listener` on its stream (src/emitter.rs), run together: what is emitted is handed to
-- the closure.
use eneste_rs.Prelude.{
  ℕ, suc, ◌+◌, ◌<◌, ◌≡◌, ◌∙◌, refl, Bool, true, false, not, List, [], ◌∷◌, Option, none, some,
  arith, if◌then◌else◌, length, usize_max, usize_mod, Bool-cases, inl, inr, ==-self,
}
use eneste_rs.Event.Map.{get, get_above, get-append}
use eneste_rs.Event.{ListenerEntry, Inner, Poll, ready, pending, Waker, usize, with_value}
use eneste_rs.Event.Invariant.{Inv, notify-Inv, notify_lem}
use eneste_rs.Event.Listener.{waiting_entry, consumed, consumed-Inv, parked, parked-Inv}
use eneste_rs.Event.Stream.{StreamState, listening, next, event_alive}
use eneste_rs.Event.Stream.Loop.{poll_next-eq-poll_once, poll_once}
use eneste_rs.Emitter.{emit, emitter_poll_next, Listener, listener_poll}
use eneste_rs.Emitter.Broadcast.{emit_reaches_everyone, get-emit}
use eneste_rs.Emitter.Handling.{until}

module _ {T : Type 0} where
  -- The stream of an emitter with the emitter's event, as a stream with a state of its own. A panic, which
  -- the theorems rule out, would leave it pending.
  unfoldable pub stream_poll :
      Inner T × StreamState → Waker → (Inner T × StreamState) × Poll (Option T)
  stream_poll (e, s) cx = elim (emitter_poll_next 4 e s cx) [
    | none ↦ ((e, s), pending)
    | some (k, t, r) ↦ ((k, t), r)
  ]

  -- A well-formed open event with a listener that has no value, and ids for `n` more.
  pub record Subscribed (n : ℕ) (x : Inner T × StreamState) : Type 0 where
    pub event : Inv x.0
    pub on : x.0.closed ≡ false
    pub ids : x.0.next_id + n < usize_mod
    pub at :
        (id : ℕ) × (w : Option Waker) × (x.1 ≡ listening id)
        × (get id x.0.listeners ≡ some (waiting_entry w))

  emit-Inv : (e : Inner T) (v : T) → Inv e → Inv (emit e v)
  unfolding emit usize with_value
  emit-Inv e v i = notify-Inv e (with_value (usize usize_max) v) i (omega arith)

  emit-keeps :
      (e : Inner T) (v : T)
      → Inv e
      → ((emit e v).next_id ≡ e.next_id) × ((emit e v).closed ≡ e.closed)
  unfolding emit usize with_value
  emit-keeps e v i =
      let p = notify_lem e (with_value (usize usize_max) v) i (omega arith) in
      (rw p refl, rw p refl)

  -- The stream after it has yielded `v` and was polled again.
  abbrev pub again : Inner T × StreamState → T → ℕ → Waker → Inner T × StreamState
  again x v id cx = let k = consumed (emit x.0 v) id in (parked k cx, listening k.next_id)

  yields_emitted :
      (x : Inner T × StreamState) (v : T) (id n : ℕ) (w : Option Waker) (cx : Waker)
      → Subscribed (suc n) x
      → get id x.0.listeners ≡ some (waiting_entry w)
      → stream_poll (emit x.0 v, listening id) cx
        ≡ ((consumed (emit x.0 v) id, next), ready (some v))
  unfolding stream_poll
  yields_emitted x v id n w cx s g =
      let p =
        emit_reaches_everyone x.0 v id (waiting_entry w) 0 cx s.event (omega (arith, s.ids)) g in
      rw (stream_poll, p) refl

  consumed-ok :
      (x : Inner T × StreamState) (v : T) (id n : ℕ) (w : Option Waker)
      → Subscribed (suc n) x
      → get id x.0.listeners ≡ some (waiting_entry w)
      → Inv (consumed (emit x.0 v) id)
  consumed-ok x v id n w s g =
      consumed-Inv (emit x.0 v) id none v (emit-Inv x.0 v s.event)
        (get-emit x.0 v id (waiting_entry w) s.event g)

  then_waits :
      (x : Inner T × StreamState) (v : T) (id n : ℕ) (w : Option Waker) (cx : Waker)
      → Subscribed (suc n) x
      → get id x.0.listeners ≡ some (waiting_entry w)
      → stream_poll (consumed (emit x.0 v) id, next) cx ≡ (again x v id cx, pending)
  unfolding stream_poll emitter_poll_next poll_once event_alive
  then_waits x v id n w cx s g =
      let q = emit-keeps x.0 v s.event in
      let k = consumed (emit x.0 v) id in
      let p =
        poll_next-eq-poll_once event_alive 0 k next cx (consumed-ok x v id n w s g)
          (omega (arith, s.ids, q.0)) tt in
      ground (arith, p, q, s.on)

  again-Subscribed :
      (x : Inner T × StreamState) (v : T) (id n : ℕ) (w : Option Waker) (cx : Waker)
      → Subscribed (suc n) x
      → get id x.0.listeners ≡ some (waiting_entry w)
      → Subscribed n (again x v id cx)
  again-Subscribed x v id n w cx s g =
      let q = emit-keeps x.0 v s.event in
      let k = consumed (emit x.0 v) id in
      let i = consumed-ok x v id n w s g in
      let e : ListenerEntry T = waiting_entry (some cx) in
      let above = get_above 0 k.listeners k.next_id k.next_id i.ordered (omega arith) in
      record {
        event = parked-Inv k cx i (omega (arith, s.ids, q.0));
        on = q.1 ∙ s.on;
        ids = omega (arith, s.ids, q.0);
        at = (
          k.next_id,
          some cx,
          refl,
          get-append k.next_id k.listeners k.next_id e above ∙ rw (==-self k.next_id) refl,
        );
      }

module _ {M T : Type 0} (call : M → T → M × Bool) (cx : Waker) where
  -- The emitter emits one value after the other, and after each the task of the listener is polled, until
  -- it is ready.
  unfoldable pub serve :
      List T → Listener (Inner T × StreamState) M → Option (Listener (Inner T × StreamState) M)
  serve [] l = some l
  serve (v ∷ vs) l =
      let emitted = record l { stream = (emit l.stream.0 v, l.stream.1) } in
      elim (listener_poll stream_poll call 3 emitted cx) [
        | none ↦ none
        | some (k, ready u) ↦ some k
        | some (k, pending) ↦ serve vs k
      ]

  -- One emission, and one poll of the listener.
  handled :
      (x : Inner T × StreamState) (v : T) (m : M) (id n : ℕ) (w : Option Waker)
      → Subscribed (suc n) x
      → x.1 ≡ listening id
      → get id x.0.listeners ≡ some (waiting_entry w)
      → listener_poll stream_poll call 3
          (record { stream = (emit x.0 v, x.1); map = m; finished = false })
          cx
        ≡ (if (call m v).1
            then some
                (record { stream = again x v id cx; map = (call m v).0; finished = false }, pending)
            else some (
              record {
                stream = (consumed (emit x.0 v) id, next);
                map = (call m v).0;
                finished = true;
              },
              ready tt,
            ))
  unfolding listener_poll
  handled x v m id n w s e g =
      ground (arith, e, yields_emitted x v id n w cx s g, then_waits x v id n w cx s g)

  -- A listener and its emitter together are a fold: whatever other subscribers there are, the closure is
  -- called with the emitted values, each once and in their order, until it says `false` for the first time
  -- or there are no more. The listener is finished exactly if it did, and no poll of it panics. This holds
  -- of an open, well-formed event with ids for as many listeners as there are values, on which the
  -- listener waits.
  pub handles_all_emitted :
      (vs : List T) (x : Inner T × StreamState) (m : M)
      → Subscribed (length vs) x
      → (k : Listener (Inner T × StreamState) M) × (serve vs
            (record { stream = x; map = m; finished = false })
          ≡ some k)
        × (k.map ≡ (until call m vs).0)
        × (k.finished ≡ not (until call m vs).1)
  unfolding serve until
  handles_all_emitted [] x m s =
      (record { stream = x; map = m; finished = false }, refl, refl, refl)
  handles_all_emitted (v ∷ vs) x m s =
      let (id, w, e, g) = s.at in
      let once = handled x v m id (length vs) w s e g in
      let ih =
        handles_all_emitted vs (again x v id cx) (call m v).0
          (again-Subscribed x v id (length vs) w cx s g) in
      elim (Bool-cases (call m v).1) [
        | inl q ↦ (ih.0, ground (arith, once, q, ih), ground (arith, q, ih), ground (arith, q, ih))
        | inr q ↦ (
          record { stream = (consumed (emit x.0 v) id, next); map = (call m v).0; finished = true },
          ground (arith, once, q),
          ground (arith, q),
          ground (arith, q),
        )
      ]
