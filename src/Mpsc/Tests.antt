-- ===== src/Mpsc/Tests.antt =====
-- Runs of src/channel/mpsc.rs, and the theorems about it at states of those runs.
use eneste_rs.Prelude.{
  ℕ, ◌≤◌, ◌≡◌, refl, [], ◌∷◌, ◌++◌, none, some, arith, length, usize_add, usize_sub,
}
use eneste_rs.Channel.{channel_error, ok}
use eneste_rs.Event.{
  ready, poll as poll_listener, new_with, listen, notify, notify_inner, notify_count, notify_loop,
  usize,
}
use eneste_rs.Event.Map.{get, insert, set_value}
use eneste_rs.Event.Listener.{waiting_entry}
use eneste_rs.Mpsc.{
  Channel, waiting, idle, rejected, channel, push, send, try_send, drop_sender, send_poll,
  recv_poll, drop_receiver,
}
use eneste_rs.Mpsc.Order.{
  History, Reach, created, after, tries, polls_send, receives, drops_sender, first_in_first_out,
}
use eneste_rs.Mpsc.Blocked.{drain, drain_wakes_one}
use eneste_rs.Mpsc.Closing.{receiver_drop_fails_senders}

abbrev Run : Type 0
Run = (h : History ℕ) × Reach 2 h

-- Two values fill the channel, and two `Send` futures go to sleep on it.
blocked : Run
unfolding channel try_send push send_poll poll_listener new_with listen insert get set_value
    usize_add notify notify_inner notify_count notify_loop usize
blocked = (
  _,
  after (after (after (after created (tries 1)) (tries 2)) (polls_send 3 idle (some 3) 20 refl))
      (polls_send 3 idle (some 4) 21 refl),
)

-- The first receive wakes the first sender.
one_out : Run
unfolding blocked recv_poll
one_out = (_, after blocked.1 (receives 1 idle 30 refl refl))

first_sender_woken : one_out.0.shared.sender_event.woken ≡ 20 ∷ []
unfolding one_out
first_sender_woken = refl

-- The second receive wakes nobody: the channel is empty, it has room for two values, and the second
-- sender still sleeps, without a notification.
drain_wakes_one_example :
    drain 2 blocked.0.shared 30
    ≡ some (
      1 ∷ 2 ∷ [],
      record (blocked.0.shared) {
        queue = [];
        sender_event = notify blocked.0.shared.sender_event (usize 1);
      },
    )
unfolding blocked
drain_wakes_one_example = drain_wakes_one blocked.0.shared 30 (omega arith) (omega arith)

second_sender_sleeps :
    get 1 (notify blocked.0.shared.sender_event (usize 1)).listeners
    ≡ some (waiting_entry (some 21))
unfolding blocked notify notify_inner notify_count notify_loop usize
second_sender_sleeps = refl

first_in_first_out_example :
    (one_out.0.handed_out ++ one_out.0.shared.queue ≡ one_out.0.taken_in)
    × (length one_out.0.shared.queue ≤ 2)
unfolding one_out
first_in_first_out_example = first_in_first_out 2 one_out.1 refl

-- One value, no sender left, and the value received.
drained : Run
unfolding channel try_send push drop_sender recv_poll new_with notify notify_inner notify_count
    notify_loop usize usize_add usize_sub
drained = (_, after (after (after created (tries 1)) drops_sender) (receives 1 idle 30 refl refl))

drained_ends :
    (drained.0.handed_out ≡ 1 ∷ [])
    × (recv_poll 1 drained.0.shared idle 30 ≡ some (drained.0.shared, idle, ready none))
unfolding drained
drained_ends = (refl, refl)

receiver_drop_fails_senders_example :
    (c : Channel ℕ) × (send_poll 2 (drop_receiver blocked.0.shared idle) (waiting 1) (some 4) 40
      ≡ some (c, idle, some 4, ready channel_error))
    × (try_send c 4 ≡ (c, rejected 4))
unfolding blocked
receiver_drop_fails_senders_example =
    receiver_drop_fails_senders blocked.0.shared idle 1 (some 21) 4 40
      (record { ordered = omega arith; counted = refl; few = omega arith; small = omega arith })
      refl

-- A future of `send` on a new channel puts its value into the queue at its first poll.
sent_at_once :
    send_poll 1 (channel 2) (send {T = ℕ} 7).0 (send {T = ℕ} 7).1 40
    ≡ some (push (channel 2) 7, idle, none, ready (ok tt))
unfolding send_poll send channel
sent_at_once = refl
