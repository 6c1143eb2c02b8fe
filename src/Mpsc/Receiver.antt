-- ===== src/Mpsc/Receiver.antt =====
-- The receiver of a bounded channel (src/channel/mpsc.rs): what its polls come to, and that it sleeps
-- only while there is nothing to receive.
pub mod Calls
use eneste_rs.Prelude.{
  ℕ, zero, suc, ◌+◌, ◌≤◌, ◌<◌, ◌≡◌, ◌≢◌, ◌⊎◌, ◌∙◌, refl, sym, ap, Bool, true, false, List, [], ◌∷◌,
  ◌++◌, Option, none, some, arith, inl, inr, subst, usize_mod, usize_max, usize_add, usize_sub,
  usize_add_lem, ◌==◌, if◌then◌else◌, Bool-cases, Option-cases, eq_of_some, length, ltb,
}
use eneste_rs.Event.{
  Inner, Poll, ready, pending, Waker, notify, usize, listen, drop_listener, poll as poll_listener,
  new_with,
}
use eneste_rs.Event.Invariant.{Inv, notify-Inv, listen_lem}
use eneste_rs.Event.Listener.{
  waiting_entry, notified_entry, consumed, consumed-Inv, polled, polled-Inv, parked, parked-Inv,
  poll-waiting, poll-notified, poll-listened, drop_listener-taken,
}
use eneste_rs.Event.Single.{get-alone, polled-alone, consumed-alone, notify-asleep, notify-others}
use eneste_rs.Mpsc.{Channel, WaitState, waiting, idle, is_nil, push, recv_poll}

module _ {T : Type 0} where
  -- What a poll has to answer: the oldest value, the end if no sender is left, or nothing yet.
  abbrev pub recv_answer : Channel T → Poll (Option T)
  recv_answer c = elim c.queue [
    | v ∷ rest ↦ ready (some v)
    | [] ↦ if c.senders == 0 then ready none else pending
  ]

  -- The receiver has no listener, or one that sleeps while the queue is empty and a sender is left, or
  -- one that was notified.
  abbrev pub Waits : Channel T → WaitState → Type 0
  Waits c idle = c.receiver_event.listeners ≡ []
  Waits c (waiting id) =
      ((cx : Waker) × (c.receiver_event.listeners ≡ (id, waiting_entry (some cx)) ∷ [])
        × (c.queue ≡ [])
        × ((c.senders == 0) ≡ false))
      ⊎ (c.receiver_event.listeners ≡ (id, notified_entry none tt) ∷ [])

  pub record Good (c : Channel T) (st : WaitState) : Type 0 where
    pub event : Inv c.receiver_event
    pub waits : Waits c st

  abbrev pub Answers : Channel T → Option (Channel T × WaitState × Poll (Option T)) → Type 0
  Answers c result =
      (k : Channel T) × (st : WaitState) × (result ≡ some (k, st, recv_answer c)) × Good k st

  idle-Answers :
      (fuel : ℕ) (c : Channel T) (cx : Waker)
      → Good c idle
      → c.receiver_event.next_id + 1 < usize_mod
      → Answers c (recv_poll (suc (suc fuel)) c idle cx)
  unfolding recv_poll
  idle-Answers fuel c cx g h = from c.queue refl
    where
      from : (q : List T) → c.queue ≡ q → Answers c (recv_poll (suc (suc fuel)) c idle cx)
      from (v ∷ rest) e = (
        record c {
          queue = rest;
          sender_event =
              if length c.queue == c.max_queue_size
              then notify c.sender_event (usize 1)
              else c.sender_event;
        },
        idle,
        ground (arith, e),
        record { event = g.event; waits = g.waits },
      )
      from [] e = elim (Bool-cases (c.senders == 0)) [
        | inl z ↦ (c, idle, ground (arith, e, z), g)
        | inr z ↦
            let l = listen_lem c.receiver_event g.event h in
            let p = poll-listened c.receiver_event cx g.event in
            (
              record c { receiver_event = parked c.receiver_event cx },
              waiting c.receiver_event.next_id,
              ground (arith, e, z, l, p),
              record {
                event = parked-Inv c.receiver_event cx g.event h;
                waits = inl (
                  cx,
                  ap (λ m. m ++ (c.receiver_event.next_id, waiting_entry (some cx)) ∷ []) g.waits,
                  e,
                  z,
                );
              },
            )
      ]

  asleep-Answers :
      (fuel id : ℕ) (c : Channel T) (w cx : Waker)
      → Inv c.receiver_event
      → c.receiver_event.listeners ≡ (id, waiting_entry (some w)) ∷ []
      → c.queue ≡ []
      → (c.senders == 0) ≡ false
      → Answers c (recv_poll (suc fuel) c (waiting id) cx)
  unfolding recv_poll
  asleep-Answers fuel id c w cx v l e z =
      let a = get-alone c.receiver_event id (waiting_entry (some w)) l in
      (
        record c { receiver_event = polled c.receiver_event id cx },
        waiting id,
        ground (arith, e, z, poll-waiting c.receiver_event id cx (some w) a),
        record {
          event = polled-Inv c.receiver_event id cx (some w) v a;
          waits = inl (cx, polled-alone c.receiver_event id (waiting_entry (some w)) cx l, e, z);
        },
      )

  notified-step :
      (fuel id : ℕ) (c : Channel T) (cx : Waker)
      → c.receiver_event.listeners ≡ (id, notified_entry none tt) ∷ []
      → recv_poll (suc fuel) c (waiting id) cx
        ≡ recv_poll fuel (record c { receiver_event = consumed c.receiver_event id }) idle cx
  unfolding recv_poll
  notified-step fuel id c cx l =
      let a = get-alone c.receiver_event id (notified_entry none tt) l in
      ground (
        arith,
        poll-notified c.receiver_event id cx none tt a,
        drop_listener-taken c.receiver_event id none tt a,
      )

  notified-Answers :
      (fuel id : ℕ) (c : Channel T) (cx : Waker)
      → Inv c.receiver_event
      → c.receiver_event.next_id + 1 < usize_mod
      → c.receiver_event.listeners ≡ (id, notified_entry none tt) ∷ []
      → Answers c (recv_poll (suc (suc (suc fuel))) c (waiting id) cx)
  notified-Answers fuel id c cx v h l =
      let e = consumed c.receiver_event id in
      let a = get-alone c.receiver_event id (notified_entry none tt) l in
      let n = consumed-alone c.receiver_event id (notified_entry none tt) l in
      let r =
        idle-Answers fuel (record c { receiver_event = e }) cx
          (record { event = consumed-Inv c.receiver_event id none tt v a; waits = n }) h in
      (r.0, r.1, notified-step (suc (suc fuel)) id c cx l ∙ r.2, r.3)

  pub recv_poll-Answers :
      (fuel : ℕ) (c : Channel T) (st : WaitState) (cx : Waker)
      → Good c st
      → c.receiver_event.next_id + 1 < usize_mod
      → Answers c (recv_poll (suc (suc (suc fuel))) c st cx)
  recv_poll-Answers fuel c idle cx g h = idle-Answers (suc fuel) c cx g h
  recv_poll-Answers fuel c (waiting id) cx g h = elim g.waits [
    | inl (w, l, e, z) ↦ asleep-Answers (suc (suc fuel)) id c w cx g.event l e z
    | inr l ↦ notified-Answers fuel id c cx g.event h l
  ]

  -- A push into the empty queue wakes a receiver that sleeps.
  pub push-Good : (c : Channel T) (st : WaitState) (v : T) → Good c st → Good (push c v) st
  unfolding push usize
  push-Good c st v g = record {
    event = elim (Bool-cases (is_nil c.queue)) [
      | inl e ↦ rw e (notify-Inv c.receiver_event (usize 1) g.event (omega arith))
      | inr e ↦ rw e g.event
    ];
    waits = from st g.waits;
  }
    where
      from : (s : WaitState) → Waits c s → Waits (push c v) s
      from idle l =
          ground (arith, l, notify-others c.receiver_event 1 g.event (omega arith) (omega arith))
      from (waiting id) (inl (cx, l, e, z)) = inr (
          ground (
            arith,
            e,
            notify-asleep c.receiver_event 1 g.event (omega arith) (omega arith) id cx l,
          ))
      from (waiting id) (inr l) =
          inr (
            ground (arith, l, notify-others c.receiver_event 1 g.event (omega arith) (omega arith)))

  -- The senders' event is no concern of the receiver.
  pub with_sender_event-Good :
      (c : Channel T) (st : WaitState) (e : Inner (Unit {0}))
      → Good c st
      → Good (record c { sender_event = e }) st
  with_sender_event-Good c idle e g = record { event = g.event; waits = g.waits }
  with_sender_event-Good c (waiting id) e g = record { event = g.event; waits = g.waits }
