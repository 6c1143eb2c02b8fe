-- ===== src/Oneshot/Closed.antt =====
-- A receiver of a oneshot channel that closed itself (src/channel/oneshot.rs), in every later history.
use eneste_rs.Prelude.{◌≡◌, ◌∙◌, refl, true, append-nil, some, arith, usize_add}
use eneste_rs.Channel.{ChannelResult, channel_error}
use eneste_rs.Event.{Poll, pending, Waker, notify, usize, new_with, listen}
use eneste_rs.Event.Map.{get, insert}
use eneste_rs.Event.Registered.{registered, registered-told, registered-drop_event, registered-poll}
use eneste_rs.Oneshot.{
  empty, receiver_closed, full, Channel, channel, drop_sender, send, close, try_recv, poll, wait,
  drop_receiver,
}
use eneste_rs.Oneshot.Delivery.{
  History, Step, sends, drops_sender, polls, tries, closes, drops_receiver, Reach, created, after,
}

module _ {T : Type 0} where
  -- The listener of the receiver is in the event.
  abbrev IsListening : Channel T → Type 0
  IsListening c = registered c.event c.listener ≡ true

  IsListening-drop_sender : (c : Channel T) → IsListening c → IsListening (drop_sender c)
  unfolding drop_sender
  IsListening-drop_sender c l = ground (
    arith,
    l,
    registered-drop_event c.event c.listener,
    registered-drop_event (notify c.event (usize 1)) c.listener,
    registered-told c.event (usize 1) c.listener,
  )

  IsListening-send :
      (c c' : Channel T) (v : T) {r : ChannelResult (Unit {0})}
      → send c v ≡ some (c', r)
      → IsListening c
      → IsListening c'
  unfolding send
  IsListening-send c c' v p l =
      let full_one = record c { value = some v; state = full; event = notify c.event (usize 1) } in
      let told = registered-told c.event (usize 1) c.listener ∙ l in
      ground (arith, p, l, IsListening-drop_sender c l, IsListening-drop_sender full_one told)

  IsListening-poll :
      (c c' : Channel T) (cx : Waker) {r : Poll (ChannelResult T)}
      → poll c cx ≡ some (c', r)
      → IsListening c
      → IsListening c'
  unfolding poll wait
  IsListening-poll c c' cx p l =
      let (k, r, q, same) = registered-poll c.event c.listener cx l in
      ground (arith, p, l, q, same c.listener)

  Step-IsListening :
      {h k : History T}
      → Step h k
      → (h.receiver ≡ true → IsListening h.shared)
      → k.receiver ≡ true
      → IsListening k.shared
  unfolding try_recv close
  Step-IsListening {h} (sends v {c} s p) l live = IsListening-send h.shared c v p (l live)
  Step-IsListening {h} (drops_sender s) l live = IsListening-drop_sender h.shared (l live)
  Step-IsListening {h} (polls cx {c} r p) l live = IsListening-poll h.shared c cx p (l live)
  Step-IsListening {h} (tries r) l live = ground (arith, l live)
  Step-IsListening {h} (closes r) l live = ground (arith, l live)
  Step-IsListening {h} (drops_receiver r) l live = absurd (ground (arith, live))

  Reach-IsListening : {h : History T} → Reach h → h.receiver ≡ true → IsListening h.shared
  unfolding channel new_with listen insert get usize_add
  Reach-IsListening created live = refl
  Reach-IsListening (after r st) live = Step-IsListening st (Reach-IsListening r) live

  -- What comes after a state: any calls of the handles that live.
  pub data Later (h : History T) : History T → Type 0 where
    now : Later h h
    then : {k l : History T} → Later h k → Step k l → Later h l

  Later-Reach : {h k : History T} → Reach h → Later h k → Reach k
  Later-Reach r now = r
  Later-Reach r (then l st) = after (Later-Reach r l) st

  -- A receiver that closed itself stays closed, and hands nothing out.
  record Shut (h k : History T) : Type 0 where
    state : k.shared.state ≡ receiver_closed
    nothing : k.received ≡ h.received

  Step-Shut : {h k l : History T} → Step k l → Shut h k → Shut h l
  unfolding send drop_sender poll wait try_recv close drop_receiver
  Step-Shut (sends v s p) g = record { state = ground (arith, g.state, p); nothing = g.nothing }
  Step-Shut (drops_sender s) g = record { state = ground (arith, g.state); nothing = g.nothing }
  Step-Shut {k} (polls cx {r} live p) g = ground (arith, g, append-nil k.received)
  Step-Shut {k} (tries r) g = ground (arith, g, append-nil k.received)
  Step-Shut (closes r) g = record { state = ground (arith, g.state); nothing = g.nothing }
  Step-Shut (drops_receiver r) g = record { state = ground (arith, g.state); nothing = g.nothing }

  Later-Shut : {h k : History T} → h.shared.state ≡ receiver_closed → Later h k → Shut h k
  Later-Shut c now = record { state = c; nothing = refl }
  Later-Shut c (then l st) = Step-Shut st (Later-Shut c l)

  -- A receiver closes a channel that is empty. After any later history, with sends, drops of the sender,
  -- polls, and further calls of the receiver, in any order: as long as the receiver lives, a poll of it
  -- does not panic and is pending, whoever woke it, no value was handed out since, and `try_recv` reports
  -- the error at once.
  pub closed_never_ready :
      {h k : History T} (cx : Waker)
      → Reach h
      → h.receiver ≡ true
      → h.shared.state ≡ empty
      → Later (record h { shared = close h.shared }) k
      → k.receiver ≡ true
      → (c : Channel T) × (poll k.shared cx ≡ some (c, pending))
        × (try_recv k.shared ≡ (k.shared, channel_error))
        × (k.received ≡ h.received)
  unfolding poll wait try_recv close
  closed_never_ready {h} {k} cx r live e l on =
      let g = Later-Shut (ground (arith, e)) l in
      let (event, answer, p, same) =
        registered-poll k.shared.event k.shared.listener cx
          (Reach-IsListening (Later-Reach (after r (closes live)) l) on) in
      (
        record (k.shared) { event = event },
        ground (arith, g.state, p),
        ground (arith, g.state),
        g.nothing,
      )
