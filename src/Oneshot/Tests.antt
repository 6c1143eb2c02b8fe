-- ===== src/Oneshot/Tests.antt =====
-- Runs of src/channel/oneshot.rs, and the theorems about it at states of those runs.
use eneste_rs.Prelude.{ℕ, ◌≤◌, ◌≡◌, refl, true, [], ◌∷◌, ◌++◌, some, length, ◌⊎◌, usize_add}
use eneste_rs.Channel.{ok, channel_error}
use eneste_rs.Event.{
  pending, poll as poll_listener, new_with, listen, notify, usize, drop_event, take_wakers,
}
use eneste_rs.Event.Map.{get, insert, set_value}
use eneste_rs.Oneshot.{
  Channel, empty, receiver_closed, full, channel, send, drop_sender, close, try_recv, poll, wait,
}
use eneste_rs.Oneshot.Delivery.{
  History, Reach, start, created, after, sends, drops_sender, polls, closes, out, delivered_once,
  send_total,
}
use eneste_rs.Oneshot.Closed.{Later, now, then, closed_never_ready}

abbrev Run : Type 0
Run = (h : History ℕ) × Reach h

-- The receiver goes to sleep, the sender sends 7, and the receiver gets it.
asleep : Run
unfolding channel poll wait poll_listener new_with listen insert get set_value usize_add
asleep = (_, after created (polls 3 refl refl))

delivered : Run
unfolding asleep send
delivered = (_, after (after asleep.1 (sends 7 refl refl)) (polls 4 refl refl))

delivered_value : delivered.0.received ≡ 7 ∷ []
unfolding delivered
delivered_value = refl

-- The receiver closes before anything is sent.
closed_run : Run
unfolding channel close new_with listen insert usize_add
closed_run = (_, after created (closes refl))

delivered_once_example :
    (delivered.0.received ++ out delivered.0.shared.value ≡ delivered.0.sent)
    × (length delivered.0.sent ≤ 1)
delivered_once_example = delivered_once delivered.1

send_total_example :
    ((closed_run.0.shared.state ≡ empty)
      × (send closed_run.0.shared 7
          ≡ some (
            drop_sender (record (closed_run.0.shared) {
              value = some 7;
              state = full;
              event = notify closed_run.0.shared.event (usize 1);
            }),
            ok tt,
          )))
    ⊎ ((closed_run.0.shared.state ≡ receiver_closed)
        × (send closed_run.0.shared 7 ≡ some (drop_sender closed_run.0.shared, channel_error)))
unfolding closed_run
send_total_example = send_total 7 closed_run.1 refl

-- After the close the receiver is polled twice, and the sender is dropped in between.
polled_when_closed :
    (k : History ℕ) × Later (record start { shared = close start.shared }) k × (k.receiver ≡ true)
unfolding channel close poll wait poll_listener new_with listen insert get set_value usize_add
    drop_sender drop_event take_wakers
polled_when_closed =
    (_, then (then (then now (polls 3 refl refl)) (drops_sender refl)) (polls 4 refl refl), refl)

closed_never_ready_example :
    (c : Channel ℕ) × (poll polled_when_closed.0.shared 5 ≡ some (c, pending))
    × (try_recv polled_when_closed.0.shared ≡ (polled_when_closed.0.shared, channel_error))
    × (polled_when_closed.0.received ≡ [])
unfolding channel
closed_never_ready_example =
    closed_never_ready 5 created refl refl polled_when_closed.1 polled_when_closed.2
