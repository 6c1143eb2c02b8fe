-- ===== src/Mpsc/Senders/Wakeup.antt =====
-- Every history of a bounded channel of size one whose receiver lives (src/channel/mpsc.rs): no wake-up
-- of a sender is lost.
mod Tests
use eneste_rs.Prelude.{
  ℕ, ◌+◌, ◌≤◌, ◌<◌, ◌≡◌, refl, [], ◌∷◌, Option, none, some, arith, usize_mod, Option-cases, inl,
  inr, ltb, length,
}
use eneste_rs.Channel.{ChannelResult, ok}
use eneste_rs.Event.Map.{get}
use eneste_rs.Event.{ListenerEntry, Poll, ready, Waker, new_with}
use eneste_rs.Event.Awake.{registered_pos, find_notified}
use eneste_rs.Event.Sweep.{notified_entries}
use eneste_rs.Event.Listener.{notified_entry, consumed, poll-notified, drop_listener-taken}
use eneste_rs.Mpsc.{
  Channel, WaitState, waiting, idle, channel, push, try_send, drop_sender, clone_sender, send_poll,
  drop_send, recv_poll,
}
use eneste_rs.Mpsc.Senders.{Good, try_send-Good, send_poll-Good, drop_send-Good}
use eneste_rs.Mpsc.Senders.Receives.{clone_sender-Good, drop_sender-Good, recv_poll-Good}

module _ {T : Type 0} where
  -- One call. Futures may be in any state, so that every schedule of senders is covered.
  pub data Step (c : Channel T) : Channel T → Type 0 where
    tries : (v : T) → Step c (try_send c v).0
    polls_send :
        (fuel : ℕ) (st : WaitState) (value : Option T) (cx : Waker) {c' : Channel T}
        {st' : WaitState} {value' : Option T} {r : Poll (ChannelResult (Unit {0}))}
        → c.sender_event.next_id + 1 < usize_mod
        → send_poll fuel c st value cx ≡ some (c', st', value', r)
        → Step c c'
    drops_send : (st : WaitState) → Step c (drop_send c st)
    clones_sender : Step c (clone_sender c)
    drops_sender : Step c (drop_sender c)
    receives :
        (fuel : ℕ) (st : WaitState) (cx : Waker) {c' : Channel T} {st' : WaitState}
        {r : Poll (Option T)}
        → recv_poll fuel c st cx ≡ some (c', st', r)
        → Step c c'

  pub data Reach : Channel T → Type 0 where
    created : Reach (channel 1)
    after : {c d : Channel T} → Reach c → Step c d → Reach d

  Step-Good : {c d : Channel T} → Step c d → Good c → Good d
  Step-Good {c} (tries v) g = try_send-Good c v g
  Step-Good {c} (polls_send fuel st value cx {c'} {st'} {value'} {r} lt p) g =
      send_poll-Good fuel c st value cx c' st' value' r g lt p
  Step-Good {c} (drops_send st) g = drop_send-Good c st g
  Step-Good {c} clones_sender g = clone_sender-Good c g
  Step-Good {c} drops_sender g = drop_sender-Good c g
  Step-Good {c} (receives fuel st cx {c'} {st'} {r} p) g = recv_poll-Good fuel c st cx c' st' r g p

  Reach-Good : {c : Channel T} → Reach c → Good c
  unfolding channel new_with
  Reach-Good created = record {
    event = record {
      ordered = omega arith;
      counted = refl;
      few = omega arith;
      small = omega arith;
    };
    one = refl;
    lives = refl;
    short = omega arith;
    awake = λ e. omega arith;
  }
  Reach-Good (after r st) = Step-Good st (Reach-Good r)

  -- The next poll of a `Send` future that was notified, on an empty queue.
  sends :
      (c : Channel T) (v : T) (cx : Waker) (k : ℕ) (w : Option Waker) (tag : Unit {0})
      → Good c
      → c.queue ≡ []
      → get k c.sender_event.listeners ≡ some (notified_entry w tag)
      → (d : Channel T) × (send_poll 2 c (waiting k) (some v) cx
          ≡ some (d, idle, none, ready (ok tt)))
        × (d.queue ≡ v ∷ [])
  unfolding send_poll push
  sends c v cx k w tag g e q = (
    push (record c { sender_event = consumed c.sender_event k }) v,
    ground (
      arith,
      g.one,
      g.lives,
      e,
      poll-notified c.sender_event k cx w tag q,
      drop_listener-taken c.sender_event k w tag q,
    ),
    ground (arith, e),
  )

  -- After every history of a channel of size one whose receiver lives: if the queue is empty while some
  -- `Send` future sleeps on the channel, then one that sleeps has been notified, and its next poll puts
  -- its value into the queue and returns `Ok`, also when senders that were notified are dropped, or find
  -- the queue full again.
  pub empty_wakes_sender :
      {c : Channel T} (v : T) (cx : Waker) (id : ℕ) (entry : ListenerEntry (Unit {0}))
      → Reach c
      → c.queue ≡ []
      → get id c.sender_event.listeners ≡ some entry
      → (k : ℕ) × (w : Option Waker) × (get k c.sender_event.listeners ≡ some (notified_entry w tt))
        × ((d : Channel T) × (send_poll 2 c (waiting k) (some v) cx
              ≡ some (d, idle, none, ready (ok tt)))
            × (d.queue ≡ v ∷ []))
  empty_wakes_sender {c} v cx id entry r e q =
      let g = Reach-Good r in
      let here = registered_pos c.sender_event id (rw q refl) in
      let some_notified : 1 ≤ notified_entries c.sender_event.listeners =
        omega (arith, g.awake e, g.event.counted, here) in
      let (k, w, tag, p) =
        find_notified 0 c.sender_event.listeners c.sender_event.next_id g.event.ordered
          some_notified in
      (k, w, p, sends c v cx k w tag g e p)
