-- ===== src/Mpsc/Wakeup.antt =====
-- Every history of a bounded channel (src/channel/mpsc.rs) whose receiver lives, and its polls.
mod Tests
use eneste_rs.Prelude.{
  ℕ, zero, suc, ◌+◌, ◌≤◌, ◌<◌, ◌≡◌, ◌∙◌, refl, sym, ap, Bool, true, false, List, [], ◌∷◌, ◌++◌,
  Option, none, some, arith, inl, inr, subst, usize_mod, usize_max, usize_add, usize_sub,
  usize_add_lem, ◌==◌, if◌then◌else◌, Bool-cases, Option-cases, eq_of_some, length, ltb,
}
use eneste_rs.Channel.{ChannelResult}
use eneste_rs.Event.{
  Inner, Poll, ready, pending, Waker, notify, usize, listen, drop_listener, poll as poll_listener,
  new_with,
}
use eneste_rs.Event.Invariant.{Inv, notify-Inv}
use eneste_rs.Event.Listener.{waiting_entry, notified_entry}
use eneste_rs.Event.Single.{notify-asleep, notify-others}
use eneste_rs.Mpsc.{
  Channel, WaitState, waiting, idle, channel, push, try_send, drop_sender, clone_sender, send_poll,
  drop_send, recv_poll,
}
use eneste_rs.Mpsc.Receiver.{
  Waits, Good, recv_answer, recv_poll-Answers, push-Good, with_sender_event-Good,
}
use eneste_rs.Mpsc.Receiver.Calls.{
  send_poll-Good, drop_send-Good, try_send-Good, clone_sender-Good, drop_sender-Good,
}

pub record World (T : Type 0) : Type 0 where
  pub shared : Channel T
  pub receiver : WaitState

module _ {T : Type 0} where
  -- One call. The `Send` futures may be in any state, so that every schedule of senders is covered.
  pub data Step (w : World T) : World T → Type 0 where
    tries : (v : T) → Step w (record w { shared = (try_send w.shared v).0 })
    polls_send :
        (fuel : ℕ) (st : WaitState) (value : Option T) (cx : Waker) {c : Channel T}
        {st' : WaitState} {value' : Option T} {r : Poll (ChannelResult (Unit {0}))}
        → send_poll fuel w.shared st value cx ≡ some (c, st', value', r)
        → Step w (record w { shared = c })
    drops_send : (st : WaitState) → Step w (record w { shared = drop_send w.shared st })
    clones_sender :
        w.shared.senders + 1 < usize_mod → Step w (record w { shared = clone_sender w.shared })
    drops_sender : Step w (record w { shared = drop_sender w.shared })
    receives :
        (fuel : ℕ) (cx : Waker) {c : Channel T} {st : WaitState} {r : Poll (Option T)}
        → w.shared.receiver_event.next_id + 1 < usize_mod
        → recv_poll (suc (suc (suc fuel))) w.shared w.receiver cx ≡ some (c, st, r)
        → Step w (record { shared = c; receiver = st })

  pub data Reach (n : ℕ) : World T → Type 0 where
    created : Reach n (record { shared = channel n; receiver = idle })
    after : {w u : World T} → Reach n w → Step w u → Reach n u

  Step-Good : {w u : World T} → Step w u → Good w.shared w.receiver → Good u.shared u.receiver
  Step-Good {w} (tries v) g = try_send-Good w.shared w.receiver v g
  Step-Good {w} (polls_send fuel st value cx {c} {st'} {value'} {r} p) g =
      send_poll-Good fuel w.shared w.receiver st value cx c st' value' r g p
  Step-Good {w} (drops_send st) g = drop_send-Good w.shared w.receiver st g
  Step-Good {w} (clones_sender lt) g = clone_sender-Good w.shared w.receiver lt g
  Step-Good {w} drops_sender g = drop_sender-Good w.shared w.receiver g
  Step-Good {w} (receives fuel cx lt p) g =
      let a = recv_poll-Answers fuel w.shared w.receiver cx g lt in
      let same = eq_of_some (sym a.2 ∙ p) in subst (λ x. Good x.0 x.1) same a.3

  Reach-Good : (n : ℕ) {w : World T} → Reach n w → Good w.shared w.receiver
  unfolding channel new_with
  Reach-Good n created = record {
    event = record {
      ordered = omega arith;
      counted = refl;
      few = omega arith;
      small = omega arith;
    };
    waits = refl;
  }
  Reach-Good n (after r st) = Step-Good st (Reach-Good n r)

  -- After every history of a bounded channel whose receiver lives, with a listener id to spare, a poll of
  -- the receiver comes back, within three rounds of its loop, and never panics. It yields the oldest value
  -- if there is one, ends if there is none and no sender is left, and is pending only if there is none and
  -- a sender is left: the receiver never waits for a notification that it has missed.
  pub receiver_never_misses :
      (n fuel : ℕ) (cx : Waker) {w : World T}
      → Reach n w
      → w.shared.receiver_event.next_id + 1 < usize_mod
      → (c : Channel T) × (st : WaitState) × (recv_poll
            (suc (suc (suc fuel)))
            w.shared
            w.receiver
            cx
          ≡ some (c, st, recv_answer w.shared))
  receiver_never_misses n fuel cx {w} r lt =
      let a = recv_poll-Answers fuel w.shared w.receiver cx (Reach-Good n r) lt in (a.0, a.1, a.2)
