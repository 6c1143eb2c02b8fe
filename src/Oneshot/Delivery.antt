-- ===== src/Oneshot/Delivery.antt =====
-- Every history of a oneshot channel (src/channel/oneshot.rs): what is sent is what is received.
use eneste_rs.Prelude.{
  ◌≤◌, ◌≡◌, refl, Bool, true, false, List, [], ◌∷◌, ◌++◌, append-nil, Option, none, some, arith,
  length, is_some, inl, inr, ◌⊎◌,
}
use eneste_rs.Channel.{ChannelResult, ok, channel_error}
use eneste_rs.Event.{Poll, ready, pending, Waker, notify, usize}
use eneste_rs.Oneshot.{
  empty, receiver_closed, full, Channel, channel, drop_sender, send, close, try_recv, poll,
  drop_receiver, ok_or_error, wait,
}

-- The channel, which of its handles live, and what went in and came out, oldest first.
pub record History (T : Type 0) : Type 0 where
  pub shared : Channel T
  pub sender : Bool
  pub receiver : Bool
  pub sent : List T
  pub received : List T

module _ {T : Type 0} where
  -- The values that a call of the receiver hands out.
  abbrev pub out : Option T → List T
  out none = []
  out (some v) = v ∷ []

  abbrev pub polled_out : Poll (ChannelResult T) → List T
  polled_out (ready (ok v)) = v ∷ []
  polled_out (ready channel_error) = []
  polled_out pending = []

  abbrev pub tried_out : ChannelResult (Option T) → List T
  tried_out (ok o) = out o
  tried_out channel_error = []

  -- What a send puts in.
  abbrev pub sent_in : T → ChannelResult (Unit {0}) → List T
  sent_in v (ok u) = v ∷ []
  sent_in v channel_error = []

  -- One call of a living handle. `send` uses its sender up.
  pub data Step (h : History T) : History T → Type 0 where
    sends :
        (v : T) {c : Channel T} {r : ChannelResult (Unit {0})}
        → h.sender ≡ true
        → send h.shared v ≡ some (c, r)
        → Step h (record h { shared = c; sender = false; sent = h.sent ++ sent_in v r })
    drops_sender :
        h.sender ≡ true → Step h (record h { shared = drop_sender h.shared; sender = false })
    polls :
        (cx : Waker) {c : Channel T} {r : Poll (ChannelResult T)}
        → h.receiver ≡ true
        → poll h.shared cx ≡ some (c, r)
        → Step h (record h { shared = c; received = h.received ++ polled_out r })
    tries :
        h.receiver ≡ true
        → Step h (record h {
          shared = (try_recv h.shared).0;
          received = h.received ++ tried_out (try_recv h.shared).1;
        })
    closes : h.receiver ≡ true → Step h (record h { shared = close h.shared })
    drops_receiver :
        h.receiver ≡ true → Step h (record h { shared = drop_receiver h.shared; receiver = false })

  abbrev pub start : History T
  start = record { shared = channel; sender = true; receiver = true; sent = []; received = [] }

  pub data Reach : History T → Type 0 where
    created : Reach start
    after : {h k : History T} → Reach h → Step h k → Reach k

  -- A value stands in the channel exactly in the state `full`; a living sender has sent nothing, and
  -- finds the channel empty or closed by its receiver.
  pub record Sound (h : History T) : Type 0 where
    pub balance : h.received ++ out h.shared.value ≡ h.sent
    pub filled : (h.shared.state ≡ full) ⊎ (h.shared.value ≡ none)
    pub held : h.shared.state ≡ full → is_some h.shared.value ≡ true
    pub unsent :
        h.sender ≡ true
        → (h.sent ≡ []) × ((h.shared.state ≡ empty) ⊎ (h.shared.state ≡ receiver_closed))
    pub once : length h.sent ≤ 1

  out-ok_or_error : (o : Option T) → polled_out (ready (ok_or_error o)) ≡ out o
  out-ok_or_error none = refl
  out-ok_or_error (some v) = refl

  Step-Sound : {h k : History T} → Step h k → Sound h → Sound k
  unfolding send drop_sender poll try_recv close drop_receiver wait
  Step-Sound {h} (sends v s p) g = ground (arith, append-nil h.received, g.unsent s)
  Step-Sound {h} (drops_sender s) g = ground (arith, append-nil h.received, g.unsent s)
  Step-Sound {h} (polls cx {r} live p) g = ground (
    arith,
    append-nil h.received,
    append-nil (h.received ++ polled_out r),
    out-ok_or_error h.shared.value,
  )
  Step-Sound {h} (tries r) g =
      ground
        (arith, append-nil h.received, append-nil (h.received ++ tried_out (try_recv h.shared).1))
  Step-Sound {h} (closes r) g = ground (arith, append-nil h.received)
  Step-Sound {h} (drops_receiver r) g = ground (arith, append-nil h.received)

  Reach-Sound : {h : History T} → Reach h → Sound h
  unfolding channel
  Reach-Sound created = record {
    balance = refl;
    filled = inr refl;
    held = λ e. cc;
    unsent = λ e. (refl, inl refl);
    once = omega arith;
  }
  Reach-Sound (after r st) = Step-Sound st (Reach-Sound r)

  -- After every history of a oneshot channel, what the receiver got, followed by what still stands in
  -- the channel, is what was sent with success, and that is one value at most: nothing is lost while the
  -- channel is held, made up, or delivered twice.
  pub delivered_once :
      {h : History T} → Reach h → (h.received ++ out h.shared.value ≡ h.sent) × (length h.sent ≤ 1)
  delivered_once r = ((Reach-Sound r).balance, (Reach-Sound r).once)

  -- A living sender never meets the `unreachable!` of `send`, and its send fails exactly if the receiver
  -- closed the channel.
  pub send_total :
      {h : History T} (v : T)
      → Reach h
      → h.sender ≡ true
      → ((h.shared.state ≡ empty)
          × (send h.shared v
              ≡ some (
                drop_sender (record (h.shared) {
                  value = some v;
                  state = full;
                  event = notify h.shared.event (usize 1);
                }),
                ok tt,
              )))
        ⊎ ((h.shared.state ≡ receiver_closed)
            × (send h.shared v ≡ some (drop_sender h.shared, channel_error)))
  unfolding send
  send_total v r s = ground (arith, (Reach-Sound r).unsent s)
