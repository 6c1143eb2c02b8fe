-- ===== src/Mpsc/Senders.antt =====
-- The senders of a bounded channel of size one (src/channel/mpsc.rs): what a call leaves of their event.
pub mod Receives
pub mod Wakeup
use eneste_rs.Prelude.{
  ℕ, zero, suc, ◌+◌, ◌≤◌, ◌<◌, ◌≡◌, ◌∙◌, refl, sym, Bool, true, false, List, [], ◌∷◌, Option, none,
  some, arith, inl, inr, subst, usize_mod, usize_max, usize_add, usize_sub, ◌==◌, Bool-cases,
  Option-cases, length, length-append, ap, ltb, if◌then◌else◌,
}
use eneste_rs.Channel.{ChannelResult}
use eneste_rs.Event.Map.{get}
use eneste_rs.Event.{
  Inner, Poll, ready, pending, Waker, notify, usize, listen, drop_listener, poll as poll_listener,
}
use eneste_rs.Event.Invariant.{Inv, notify-Inv, listen_lem}
use eneste_rs.Event.Listener.{
  entry_cases, consumed, consumed-Inv, drop_listener-Inv, polled, polled-Inv, parked, parked-Inv,
  poll-waiting, poll-notified, poll-listened, drop_listener-taken,
}
use eneste_rs.Event.Awake.{Awake, notify-Awake, drop_listener-Awake, polled-Awake}
use eneste_rs.Mpsc.{
  Channel, WaitState, waiting, idle, push, try_send, drop_sender, clone_sender, send_poll,
  drop_send, recv_poll,
}

poll-gone :
    (e : Inner (Unit {0})) (id : ℕ) (cx : Waker)
    → get id e.listeners ≡ none
    → poll_listener e id cx ≡ none
unfolding poll_listener
poll-gone e id cx q = rw (q, poll_listener) refl

module _ {T : Type 0} where
  -- A living channel of size one; while it is empty, one of the senders that sleep has been notified.
  pub record Good (c : Channel T) : Type 0 where
    pub event : Inv c.sender_event
    pub one : c.max_queue_size ≡ 1
    pub lives : c.alive ≡ true
    pub short : length c.queue ≤ 1
    pub awake : c.queue ≡ [] → Awake c.sender_event

  pub with_receiver_event-Good :
      (c : Channel T) (e : Inner (Unit {0})) → Good c → Good (record c { receiver_event = e })
  with_receiver_event-Good c e g = record {
    event = g.event;
    one = g.one;
    lives = g.lives;
    short = g.short;
    awake = g.awake;
  }

  with_sender_event-Good :
      (c : Channel T) (e : Inner (Unit {0}))
      → Good c
      → Inv e
      → (c.queue ≡ [] → Awake e)
      → Good (record c { sender_event = e })
  with_sender_event-Good c e g v a = record {
    event = v;
    one = g.one;
    lives = g.lives;
    short = g.short;
    awake = a;
  }

  push-Good :
      (c : Channel T) (v : T)
      → Inv c.sender_event
      → c.max_queue_size ≡ 1
      → c.alive ≡ true
      → ltb (length c.queue) c.max_queue_size ≡ true
      → Good (push c v)
  unfolding push
  push-Good c v i one lives room = record {
    event = i;
    one = one;
    lives = lives;
    short = ground (arith, one, room, length-append c.queue (v ∷ []));
    awake = λ e. absurd (ground (arith, ap length e, length-append c.queue (v ∷ [])));
  }

  pub try_send-Good : (c : Channel T) (v : T) → Good c → Good (try_send c v).0
  unfolding try_send
  try_send-Good c v g = elim (Bool-cases (ltb (length c.queue) c.max_queue_size)) [
    | inl room ↦
        let same : push c v ≡ (try_send c v).0 = ground (arith, g.lives, room) in
        subst Good same (push-Good c v g.event g.one g.lives room)
    | inr full ↦
        let same : c ≡ (try_send c v).0 = ground (arith, g.lives, full) in subst Good same g
  ]

  -- On a full queue the future goes to sleep.
  parks :
      (fuel : ℕ) (c : Channel T) (value : Option T) (cx : Waker) (c' : Channel T) (st' : WaitState)
      (value' : Option T) (r : Poll (ChannelResult (Unit {0})))
      → Inv c.sender_event
      → c.alive ≡ true
      → c.sender_event.next_id + 1 < usize_mod
      → ltb (length c.queue) c.max_queue_size ≡ false
      → send_poll (suc fuel) c idle value cx ≡ some (c', st', value', r)
      → record c { sender_event = parked c.sender_event cx } ≡ c'
  unfolding send_poll
  parks zero c value cx c' st' value' r i lives lt full h = absurd (ground (arith, lives, full, h))
  parks (suc fuel) c value cx c' st' value' r i lives lt full h =
      let l = listen_lem c.sender_event i lt in
      let p = poll-listened c.sender_event cx i in ground (arith, lives, full, l, p, h)

  idle-Good :
      (fuel : ℕ) (c : Channel T) (value : Option T) (cx : Waker) (c' : Channel T) (st' : WaitState)
      (value' : Option T) (r : Poll (ChannelResult (Unit {0})))
      → Inv c.sender_event
      → c.max_queue_size ≡ 1
      → c.alive ≡ true
      → length c.queue ≤ 1
      → c.sender_event.next_id + 1 < usize_mod
      → send_poll fuel c idle value cx ≡ some (c', st', value', r)
      → Good c'
  unfolding send_poll
  idle-Good zero c value cx c' st' value' r i one lives short lt h = absurd (ground (arith, h))
  idle-Good (suc fuel) c value cx c' st' value' r i one lives short lt h =
      elim (Bool-cases (ltb (length c.queue) c.max_queue_size)) [
        | inl room ↦ elim (Option-cases value) [
          | inl n ↦ absurd (ground (arith, lives, room, n, h))
          | inr (v, n) ↦
              let same : push c v ≡ c' = ground (arith, lives, room, n, h) in
              subst Good same (push-Good c v i one lives room)
        ]
        | inr full ↦ subst Good (parks fuel c value cx c' st' value' r i lives lt full h) (record {
          event = parked-Inv c.sender_event cx i lt;
          one = one;
          lives = lives;
          short = short;
          awake = λ e. absurd (ground (arith, full, one, ap length e));
        })
      ]

  pub send_poll-Good :
      (fuel : ℕ) (c : Channel T) (st : WaitState) (value : Option T) (cx : Waker) (c' : Channel T)
      (st' : WaitState) (value' : Option T) (r : Poll (ChannelResult (Unit {0})))
      → Good c
      → c.sender_event.next_id + 1 < usize_mod
      → send_poll fuel c st value cx ≡ some (c', st', value', r)
      → Good c'
  unfolding send_poll
  send_poll-Good zero c st value cx c' st' value' r g lt h = absurd (ground (arith, h))
  send_poll-Good (suc fuel) c idle value cx c' st' value' r g lt h =
      idle-Good (suc fuel) c value cx c' st' value' r g.event g.one g.lives g.short lt h
  send_poll-Good (suc fuel) c (waiting id) value cx c' st' value' r g lt h =
      elim (Option-cases (get id c.sender_event.listeners)) [
        | inl q ↦ absurd (ground (arith, poll-gone c.sender_event id cx q, h))
        | inr (entry, q) ↦ elim (entry_cases c.sender_event id q) [
          | inl (w, q') ↦
              let e = polled c.sender_event id cx in
              let same : record c { sender_event = e } ≡ c' =
                ground (arith, poll-waiting c.sender_event id cx w q', h) in
              subst Good same (
                with_sender_event-Good c e g (polled-Inv c.sender_event id cx w g.event q')
                  (λ e. polled-Awake c.sender_event id cx (g.awake e)))
          | inr (w, tag, q') ↦
              idle-Good fuel (record c { sender_event = consumed c.sender_event id }) value cx c'
                st' value' r (consumed-Inv c.sender_event id w tag g.event q') g.one g.lives g.short
                lt
                (ground (
                  arith,
                  poll-notified c.sender_event id cx w tag q',
                  drop_listener-taken c.sender_event id w tag q',
                  h,
                ))
        ]
      ]

  pub drop_send-Good : (c : Channel T) (st : WaitState) → Good c → Good (drop_send c st)
  unfolding drop_send
  drop_send-Good c idle g = g
  drop_send-Good c (waiting id) g =
      with_sender_event-Good c (drop_listener c.sender_event id) g
        (drop_listener-Inv c.sender_event id g.event)
        (λ e. drop_listener-Awake c.sender_event id g.event (g.awake e))
