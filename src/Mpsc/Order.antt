-- ===== src/Mpsc/Order.antt =====
-- Every history of a bounded channel (src/channel/mpsc.rs): first in, first out, and within its bound.
use eneste_rs.Prelude.{
  ℕ, zero, suc, ◌≤◌, ◌<◌, ◌≡◌, refl, true, List, [], ◌∷◌, ◌++◌, append-nil, append_assoc, Option,
  none, some, arith, length, length-append, inl, inr, ◌⊎◌, Option-cases,
}
use eneste_rs.Channel.{ChannelResult, ok, channel_error}
use eneste_rs.Event.{Poll, ready, pending, Waker, listen, drop_listener, poll as poll_listener}
use eneste_rs.Mpsc.{
  Channel, WaitState, waiting, idle, TrySend, accepted, rejected, channel, push, try_send,
  drop_sender, clone_sender, send_poll, drop_send, recv_poll, drop_receiver,
}

-- The channel, with the values that it accepted and that it handed out, oldest first.
pub record History (T : Type 0) : Type 0 where
  pub shared : Channel T
  pub taken_in : List T
  pub handed_out : List T

module _ {T : Type 0} where
  -- The values that a call puts into the queue or takes out of it.
  abbrev pub put : Option T → Poll (ChannelResult (Unit {0})) → List T
  put (some v) (ready (ok u)) = v ∷ []
  put none (ready (ok u)) = []
  put value (ready channel_error) = []
  put value pending = []

  abbrev pub tried : T → TrySend T → List T
  tried v accepted = v ∷ []
  tried v (rejected w) = []

  abbrev pub got : Poll (Option T) → List T
  got (ready (some v)) = v ∷ []
  got (ready none) = []
  got pending = []

  length-put : (value : Option T) (r : Poll (ChannelResult (Unit {0}))) → length (put value r) ≤ 1
  length-put (some v) (ready (ok u)) = omega arith
  length-put none (ready (ok u)) = omega arith
  length-put (some v) (ready channel_error) = omega arith
  length-put none (ready channel_error) = omega arith
  length-put (some v) pending = omega arith
  length-put none pending = omega arith

  -- A poll of a `Send` future puts its value at the end of the queue or leaves the queue alone.
  record Sent (c : Channel T) (value : Option T) (c' : Channel T)
      (r : Poll (ChannelResult (Unit {0}))) : Type 0 where
    grows : c'.queue ≡ c.queue ++ put value r
    limit : c'.max_queue_size ≡ c.max_queue_size
    still : c'.alive ≡ c.alive
    room : (put value r ≡ []) ⊎ (length c.queue < c.max_queue_size)

  send_poll-Sent :
      (fuel : ℕ) (c : Channel T) (st : WaitState) (value : Option T) (cx : Waker) (c' : Channel T)
      (st' : WaitState) (value' : Option T) (r : Poll (ChannelResult (Unit {0})))
      → send_poll fuel c st value cx ≡ some (c', st', value', r)
      → Sent c value c' r
  unfolding send_poll
  send_poll-Sent zero c st value cx c' st' value' r h = cc
  send_poll-Sent (suc fuel) c (waiting id) value cx c' st' value' r h =
      elim (Option-cases (poll_listener c.sender_event id cx)) [
        | inl q ↦ ground arith
        | inr ((e, ready u), q) ↦ ground (
          arith,
          q,
          send_poll-Sent fuel (record c { sender_event = drop_listener e id }) idle value cx c' st'
              value' r,
        )
        | inr ((e, pending), q) ↦ ground (arith, q, append-nil c.queue)
      ]
  send_poll-Sent (suc fuel) c idle value cx c' st' value' r h = ground (
    arith,
    append-nil c.queue,
    send_poll-Sent fuel (record c { sender_event = (listen c.sender_event).0 })
        (waiting (listen c.sender_event).1) value cx c' st' value' r,
  )

  -- A poll of the receiver takes the front of the queue or leaves the queue alone; it ends the stream
  -- only when the queue is empty and no sender is left.
  record Received (c : Channel T) (c' : Channel T) (r : Poll (Option T)) : Type 0 where
    shrinks : got r ++ c'.queue ≡ c.queue
    limit : c'.max_queue_size ≡ c.max_queue_size
    still : c'.alive ≡ c.alive
    ended : r ≡ ready none → (c.queue ≡ []) × (c.senders ≡ 0)

  recv_poll-Received :
      (fuel : ℕ) (c : Channel T) (st : WaitState) (cx : Waker) (c' : Channel T) (st' : WaitState)
      (r : Poll (Option T))
      → recv_poll fuel c st cx ≡ some (c', st', r)
      → Received c c' r
  unfolding recv_poll
  recv_poll-Received zero c st cx c' st' r h = cc
  recv_poll-Received (suc fuel) c (waiting id) cx c' st' r h =
      elim (Option-cases (poll_listener c.receiver_event id cx)) [
        | inl q ↦ ground arith
        | inr ((e, ready u), q) ↦ ground (
          arith,
          q,
          recv_poll-Received fuel (record c { receiver_event = drop_listener e id }) idle cx c' st'
              r,
        )
        | inr ((e, pending), q) ↦ ground (arith, q)
      ]
  recv_poll-Received (suc fuel) c idle cx c' st' r h = ground (
    arith,
    recv_poll-Received fuel (record c { receiver_event = (listen c.receiver_event).0 })
        (waiting (listen c.receiver_event).1) cx c' st' r,
  )

  -- One call. The futures and the receiver may be in any state, so that every schedule is covered.
  pub data Step (h : History T) : History T → Type 0 where
    tries :
        (v : T)
        → Step h (record h {
          shared = (try_send h.shared v).0;
          taken_in = h.taken_in ++ tried v (try_send h.shared v).1;
        })
    polls_send :
        (fuel : ℕ) (st : WaitState) (value : Option T) (cx : Waker) {c : Channel T}
        {st' : WaitState} {value' : Option T} {r : Poll (ChannelResult (Unit {0}))}
        → send_poll fuel h.shared st value cx ≡ some (c, st', value', r)
        → Step h (record h { shared = c; taken_in = h.taken_in ++ put value r })
    drops_send : (st : WaitState) → Step h (record h { shared = drop_send h.shared st })
    clones_sender : Step h (record h { shared = clone_sender h.shared })
    drops_sender : Step h (record h { shared = drop_sender h.shared })
    receives :
        (fuel : ℕ) (st : WaitState) (cx : Waker) {c : Channel T} {st' : WaitState}
        {r : Poll (Option T)}
        → h.shared.alive ≡ true
        → recv_poll fuel h.shared st cx ≡ some (c, st', r)
        → Step h (record h { shared = c; handed_out = h.handed_out ++ got r })
    drops_receiver : (st : WaitState) → Step h (record h { shared = drop_receiver h.shared st })

  abbrev pub start : ℕ → History T
  start n = record { shared = channel n; taken_in = []; handed_out = [] }

  pub data Reach (n : ℕ) : History T → Type 0 where
    created : Reach n (start n)
    after : {h k : History T} → Reach n h → Step h k → Reach n k

  record Sound (n : ℕ) (h : History T) : Type 0 where
    in_order : h.shared.alive ≡ true → h.handed_out ++ h.shared.queue ≡ h.taken_in
    bounded : length h.shared.queue ≤ n
    fixed : h.shared.max_queue_size ≡ n

  Step-Sound : (n : ℕ) {h k : History T} → Step h k → Sound n h → Sound n k
  unfolding try_send push drop_send clone_sender drop_sender drop_receiver
  Step-Sound n {h} (tries v) g = ground (
    arith,
    append-nil h.taken_in,
    append_assoc h.handed_out h.shared.queue (v ∷ []),
    length-append h.shared.queue (v ∷ []),
  )
  Step-Sound n {h} (polls_send fuel st value cx {c} {st'} {value'} {r} p) g =
      let s = send_poll-Sent fuel h.shared st value cx c st' value' r p in
      ground (
        arith,
        s,
        append_assoc h.handed_out h.shared.queue (put value r),
        length-append h.shared.queue (put value r),
        length-put value r,
      )
  Step-Sound n (drops_send (waiting id)) g = ground arith
  Step-Sound n (drops_send idle) g = g
  Step-Sound n clones_sender g = ground arith
  Step-Sound n drops_sender g = ground arith
  Step-Sound n {h} (receives fuel st cx {c} {st'} {r} live p) g =
      let s = recv_poll-Received fuel h.shared st cx c st' r p in
      ground (arith, s, append_assoc h.handed_out (got r) c.queue, length-append (got r) c.queue)
  Step-Sound n (drops_receiver st) g = ground arith

  Reach-Sound : (n : ℕ) {h : History T} → Reach n h → Sound n h
  unfolding channel
  Reach-Sound n created = record { in_order = λ e. refl; bounded = omega arith; fixed = refl }
  Reach-Sound n (after r st) = Step-Sound n st (Reach-Sound n r)

  -- After every history of a channel of size `n` whose receiver lives: what was handed out, followed by
  -- the queue, is what was accepted, in the order of acceptance, by `try_send` and by `send` together.
  -- The queue never holds more than `n` values.
  pub first_in_first_out :
      (n : ℕ) {h : History T}
      → Reach n h
      → h.shared.alive ≡ true
      → (h.handed_out ++ h.shared.queue ≡ h.taken_in) × (length h.shared.queue ≤ n)
  first_in_first_out n r live = ((Reach-Sound n r).in_order live, (Reach-Sound n r).bounded)

  -- The stream ends only when every value that was accepted has been handed out, and no sender is left.
  pub ends_when_drained :
      (n fuel : ℕ) (st : WaitState) (cx : Waker) {h : History T} {c : Channel T} {st' : WaitState}
      → Reach n h
      → h.shared.alive ≡ true
      → recv_poll fuel h.shared st cx ≡ some (c, st', ready none)
      → (h.handed_out ≡ h.taken_in) × (h.shared.senders ≡ 0)
  ends_when_drained n fuel st cx {h} {c} {st'} r live p =
      let s = recv_poll-Received fuel h.shared st cx c st' (ready none) p in
      let f = first_in_first_out n r live in
      ground (arith, s, append-nil h.handed_out, s.ended refl)
