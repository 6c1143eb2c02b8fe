-- ===== src/Mpsc/Senders/Wakeup/Tests.antt =====
-- Two `Send` futures sleep on a full channel of size one (src/channel/mpsc.rs); after each receive one of
-- them has been notified.
use eneste_rs.Prelude.{ℕ, ◌≡◌, refl, [], ◌∷◌, Option, none, some, arith, usize_add}
use eneste_rs.Channel.{ok}
use eneste_rs.Event.{
  Waker, ready, poll as poll_listener, new_with, listen, notify, notify_inner, notify_count,
  notify_loop, usize, drop_listener, hand_on,
}
use eneste_rs.Event.Map.{get, insert, set_value, remove}
use eneste_rs.Event.Listener.{notified_entry, waiting_entry}
use eneste_rs.Mpsc.{
  Channel, waiting, idle, channel, push, try_send, send_poll, drop_send, recv_poll,
}
use eneste_rs.Mpsc.Senders.Wakeup.{
  Reach, created, after, tries, polls_send, drops_send, receives, empty_wakes_sender,
}

abbrev Run : Type 0
Run = (c : Channel ℕ) × Reach c

-- The value is received, which notifies the first sender.
received : Run
unfolding channel try_send push send_poll poll_listener new_with listen insert get set_value
    recv_poll usize_add notify notify_inner notify_count notify_loop usize
received = (
  _,
  after
      (after (after (after created (tries 1)) (polls_send 3 idle (some 3) 20 (omega arith) refl))
        (polls_send 3 idle (some 4) 21 (omega arith) refl))
      (receives 1 idle 30 refl),
)

-- The first sender is dropped, and hands its notification to the second.
handed_on : Run
unfolding received drop_send drop_listener remove hand_on
handed_on = (_, after received.1 (drops_send (waiting 0)))

second_woken : handed_on.0.sender_event.woken ≡ 20 ∷ 21 ∷ []
unfolding handed_on
second_woken = refl

empty_wakes_sender_example :
    (k : ℕ) × (w : Option Waker) × (get k received.0.sender_event.listeners
      ≡ some (notified_entry w tt))
    × ((d : Channel ℕ) × (send_poll 2 received.0 (waiting k) (some 4) 22
          ≡ some (d, idle, none, ready (ok tt)))
        × (d.queue ≡ 4 ∷ []))
unfolding received get
empty_wakes_sender_example =
    empty_wakes_sender 4 22 1 (waiting_entry (some 21)) received.1 refl refl
