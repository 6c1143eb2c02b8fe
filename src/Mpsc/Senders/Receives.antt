-- ===== src/Mpsc/Senders/Receives.antt =====
-- The receiver of a bounded channel of size one, and the handles of its senders (src/channel/mpsc.rs): what
-- their calls leave of the senders' event.
use eneste_rs.Prelude.{
  ℕ, zero, suc, ◌≡◌, refl, List, [], ◌∷◌, Option, some, arith, inl, inr, subst, usize_max,
  usize_add, usize_sub, ◌==◌, Bool-cases, Option-cases, length, ap, if◌then◌else◌,
}
use eneste_rs.Event.{
  Inner, Poll, ready, pending, Waker, notify, usize, listen, drop_listener, poll as poll_listener,
}
use eneste_rs.Event.Invariant.{notify-Inv}
use eneste_rs.Event.Awake.{notify-Awake}
use eneste_rs.Mpsc.{Channel, WaitState, waiting, idle, drop_sender, clone_sender, recv_poll}
use eneste_rs.Mpsc.Senders.{Good, with_receiver_event-Good}

module _ {T : Type 0} where
  -- Another number of senders, and whatever happens to the receiver's event.
  counted-Good :
      (c : Channel T) (k : ℕ) (e : Inner (Unit {0}))
      → Good c
      → Good (record c { senders = k; receiver_event = e })
  counted-Good c k e g = record {
    event = g.event;
    one = g.one;
    lives = g.lives;
    short = g.short;
    awake = g.awake;
  }

  pub clone_sender-Good : (c : Channel T) → Good c → Good (clone_sender c)
  unfolding clone_sender
  clone_sender-Good c g =
      let more = record c { senders = usize_add c.senders 1 } in
      let same : more ≡ clone_sender c = ground (arith, g.lives) in
      subst Good same (counted-Good c (usize_add c.senders 1) c.receiver_event g)

  pub drop_sender-Good : (c : Channel T) → Good c → Good (drop_sender c)
  unfolding drop_sender
  drop_sender-Good c g =
      let k = usize_sub c.senders 1 in
      let e = if k == 0 then notify c.receiver_event (usize usize_max) else c.receiver_event in
      let fewer = record c { senders = k; receiver_event = e } in
      let same : fewer ≡ drop_sender c = ground (arith, g.lives) in
      subst Good same (counted-Good c k e g)

  -- A receive empties the queue, which was full, and notifies a sender.
  received-Good :
      (fuel : ℕ) (c : Channel T) (v : T) (rest : List T) (cx : Waker) (c' : Channel T)
      (st' : WaitState) (r : Poll (Option T))
      → Good c
      → c.queue ≡ v ∷ rest
      → recv_poll (suc fuel) c idle cx ≡ some (c', st', r)
      → Good c'
  unfolding recv_poll usize
  received-Good fuel c v rest cx c' st' r g e h =
      let n = notify c.sender_event (usize 1) in
      let size : length c.queue ≡ 1 = ground (arith, e, ap length e, g.short) in
      let same : record c { queue = rest; sender_event = n } ≡ c' =
        ground (arith, e, size, g.one, h) in
      subst Good same (record {
        event = notify-Inv c.sender_event (usize 1) g.event (omega arith);
        one = g.one;
        lives = g.lives;
        short = ground (arith, ap length e, size);
        awake = λ z. notify-Awake c.sender_event (usize 1) g.event (omega arith) (omega arith);
      })

  pub recv_poll-Good :
      (fuel : ℕ) (c : Channel T) (st : WaitState) (cx : Waker) (c' : Channel T) (st' : WaitState)
      (r : Poll (Option T))
      → Good c
      → recv_poll fuel c st cx ≡ some (c', st', r)
      → Good c'
  unfolding recv_poll
  recv_poll-Good zero c st cx c' st' r g h = absurd (ground (arith, h))
  recv_poll-Good (suc fuel) c (waiting id) cx c' st' r g h =
      elim (Option-cases (poll_listener c.receiver_event id cx)) [
        | inl q ↦ absurd (ground (arith, q, h))
        | inr ((e, ready u), q) ↦
            recv_poll-Good fuel (record c { receiver_event = drop_listener e id }) idle cx c' st' r
              (with_receiver_event-Good c (drop_listener e id) g) (ground (arith, q, h))
        | inr ((e, pending), q) ↦
            let same : record c { receiver_event = e } ≡ c' = ground (arith, q, h) in
            subst Good same (with_receiver_event-Good c e g)
      ]
  recv_poll-Good (suc fuel) c idle cx c' st' r g h =
      let l = listen c.receiver_event in
      let again =
        recv_poll-Good fuel (record c { receiver_event = l.0 }) (waiting l.1) cx c' st' r
          (with_receiver_event-Good c l.0 g) in
      from c.queue refl again
    where
      from :
          (q : List T)
          → c.queue ≡ q
          → (recv_poll fuel
                  (record c { receiver_event = (listen c.receiver_event).0 })
                  (waiting (listen c.receiver_event).1)
                  cx
                ≡ some (c', st', r)
              → Good c')
          → Good c'
      from (v ∷ rest) e again = received-Good fuel c v rest cx c' st' r g e h
      from [] e again = elim (Bool-cases (c.senders == 0)) [
        | inl z ↦ let same : c ≡ c' = ground (arith, e, z, h) in subst Good same g
        | inr z ↦ again (ground (arith, e, z, h))
      ]
