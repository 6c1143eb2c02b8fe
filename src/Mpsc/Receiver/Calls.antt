-- ===== src/Mpsc/Receiver/Calls.antt =====
-- No call of a sender (src/channel/mpsc.rs) leaves the receiver asleep without a reason.
use eneste_rs.Prelude.{
  ℕ, zero, suc, ◌+◌, ◌<◌, ◌≡◌, ◌∙◌, refl, false, Option, some, arith, inl, inr, subst, usize_mod,
  usize_max, usize_add, usize_sub, usize_add_lem, ◌==◌, Bool-cases, Option-cases, length, ltb,
}
use eneste_rs.Channel.{ChannelResult}
use eneste_rs.Event.{
  Poll, ready, pending, Waker, notify, usize, listen, drop_listener, poll as poll_listener,
}
use eneste_rs.Event.Invariant.{notify-Inv}
use eneste_rs.Event.Single.{notify-asleep, notify-others}
use eneste_rs.Mpsc.{
  Channel, WaitState, waiting, idle, push, try_send, drop_sender, clone_sender, send_poll,
  drop_send,
}
use eneste_rs.Mpsc.Receiver.{Waits, Good, push-Good, with_sender_event-Good}

module _ {T : Type 0} where
  pub send_poll-Good :
      (fuel : ℕ) (c : Channel T) (s st : WaitState) (value : Option T) (cx : Waker) (c' : Channel T)
      (st' : WaitState) (value' : Option T) (r : Poll (ChannelResult (Unit {0})))
      → Good c s
      → send_poll fuel c st value cx ≡ some (c', st', value', r)
      → Good c' s
  unfolding send_poll
  send_poll-Good zero c s st value cx c' st' value' r g h = cc
  send_poll-Good (suc fuel) c s (waiting id) value cx c' st' value' r g h =
      elim (Option-cases (poll_listener c.sender_event id cx)) [
        | inl q ↦ ground arith
        | inr ((e, ready u), q) ↦
            let k = record c { sender_event = drop_listener e id } in
            send_poll-Good fuel k s idle value cx c' st' value' r
              (with_sender_event-Good c s (drop_listener e id) g) (ground (arith, q, h))
        | inr ((e, pending), q) ↦
            let same : record c { sender_event = e } ≡ c' = ground (arith, q, h) in
            subst (λ k. Good k s) same (with_sender_event-Good c s e g)
      ]
  send_poll-Good (suc fuel) c s idle value cx c' st' value' r g h = elim (Bool-cases c.alive) [
    | inr a ↦ let same : c ≡ c' = ground (arith, a, h) in subst (λ k. Good k s) same g
    | inl a ↦ elim (Bool-cases (ltb (length c.queue) c.max_queue_size)) [
      | inl room ↦ elim (Option-cases value) [
        | inl n ↦ ground (arith, a, room, n, h)
        | inr (v, n) ↦
            let same : push c v ≡ c' = ground (arith, a, room, n, h) in
            subst (λ k. Good k s) same (push-Good c s v g)
      ]
      | inr full ↦
          let e = listen c.sender_event in
          send_poll-Good fuel (record c { sender_event = e.0 }) s (waiting e.1) value cx c' st'
            value' r (with_sender_event-Good c s e.0 g) (ground (arith, a, full, h))
    ]
  ]

  pub drop_send-Good : (c : Channel T) (s st : WaitState) → Good c s → Good (drop_send c st) s
  unfolding drop_send
  drop_send-Good c s (waiting id) g = with_sender_event-Good c s (drop_listener c.sender_event id) g
  drop_send-Good c s idle g = g

  pub try_send-Good : (c : Channel T) (s : WaitState) (v : T) → Good c s → Good (try_send c v).0 s
  unfolding try_send
  try_send-Good c s v g = elim (Bool-cases c.alive) [
    | inr a ↦ let same : c ≡ (try_send c v).0 = ground (arith, a) in subst (λ k. Good k s) same g
    | inl a ↦ elim (Bool-cases (ltb (length c.queue) c.max_queue_size)) [
      | inl room ↦
          let same : push c v ≡ (try_send c v).0 = ground (arith, a, room) in
          subst (λ k. Good k s) same (push-Good c s v g)
      | inr full ↦
          let same : c ≡ (try_send c v).0 = ground (arith, a, full) in subst (λ k. Good k s) same g
    ]
  ]

  -- Another number of senders, and none, of which everybody is told.
  left-Good :
      (c : Channel T) (s : WaitState) (k : ℕ)
      → (k == 0) ≡ false
      → Good c s
      → Good (record c { senders = k }) s
  left-Good c idle k z g = record { event = g.event; waits = g.waits }
  left-Good c (waiting id) k z g = record {
    event = g.event;
    waits = elim g.waits [ inl (cx, l, e, y) ↦ inl (cx, l, e, z) | inr l ↦ inr l ];
  }

  last_sender-Good :
      (c : Channel T) (s : WaitState) (k : ℕ)
      → Good c s
      → Good
          (record c { senders = k; receiver_event = notify c.receiver_event (usize usize_max) })
          s
  unfolding usize
  last_sender-Good c s k g = record {
    event = notify-Inv c.receiver_event (usize usize_max) g.event (omega arith);
    waits = from s g.waits;
  }
    where
      from :
          (s : WaitState)
          → Waits c s
          → Waits
              (record c { senders = k; receiver_event = notify c.receiver_event (usize usize_max) })
              s
      from idle l =
          notify-others c.receiver_event usize_max g.event (omega arith) (omega arith) (rw l refl)
          ∙ l
      from (waiting id) (inl (cx, l, e, z)) =
          inr
            (notify-asleep c.receiver_event usize_max g.event (omega arith) (omega arith) id cx l).0
      from (waiting id) (inr l) = inr (
          notify-others c.receiver_event usize_max g.event (omega arith) (omega arith) (rw l refl)
          ∙ l)

  pub clone_sender-Good :
      (c : Channel T) (s : WaitState)
      → c.senders + 1 < usize_mod
      → Good c s
      → Good (clone_sender c) s
  unfolding clone_sender
  clone_sender-Good c s lt g = elim (Bool-cases c.alive) [
    | inr a ↦ let same : c ≡ clone_sender c = ground (arith, a) in subst (λ k. Good k s) same g
    | inl a ↦
        let more : Channel T = record c { senders = usize_add c.senders 1 } in
        let same : more ≡ clone_sender c = ground (arith, a) in
        let some_left : (usize_add c.senders 1 == 0) ≡ false =
          ground (arith, usize_add_lem c.senders 1 lt) in
        subst (λ k. Good k s) same (left-Good c s (usize_add c.senders 1) some_left g)
  ]

  pub drop_sender-Good : (c : Channel T) (s : WaitState) → Good c s → Good (drop_sender c) s
  unfolding drop_sender
  drop_sender-Good c s g = elim (Bool-cases c.alive) [
    | inr a ↦ let same : c ≡ drop_sender c = ground (arith, a) in subst (λ k. Good k s) same g
    | inl a ↦
        let k = usize_sub c.senders 1 in
        elim (Bool-cases (usize_sub c.senders 1 == 0)) [
          | inl z ↦
              let last : Channel T = record c {
                senders = k;
                receiver_event = notify c.receiver_event (usize usize_max);
              } in
              let same : last ≡ drop_sender c = ground (arith, a, z) in
              subst (λ k. Good k s) same (last_sender-Good c s k g)
          | inr z ↦
              let fewer : Channel T = record c { senders = k } in
              let same : fewer ≡ drop_sender c = ground (arith, a, z) in
              subst (λ k. Good k s) same (left-Good c s k z g)
        ]
  ]
