-- ===== src/Mpsc/Wakeup/Tests.antt =====
-- A receiver that sleeps on an empty channel of src/channel/mpsc.rs, and is woken by a push.
use eneste_rs.Prelude.{ℕ, ◌≡◌, refl, [], ◌∷◌, some, arith, usize_add}
use eneste_rs.Event.{
  ready, poll as poll_listener, new_with, listen, notify, notify_inner, notify_count, notify_loop,
  usize,
}
use eneste_rs.Event.Map.{get, insert, set_value}
use eneste_rs.Mpsc.{Channel, WaitState, channel, push, try_send, recv_poll}
use eneste_rs.Mpsc.Receiver.{recv_answer}
use eneste_rs.Mpsc.Wakeup.{World, Reach, created, after, tries, receives, receiver_never_misses}

abbrev Run : Type 0
Run = (w : World ℕ) × Reach 2 w

-- The receiver polls the empty channel and goes to sleep, and then a value arrives.
pushed : Run
unfolding channel try_send push recv_poll poll_listener new_with listen insert get set_value
    usize_add notify notify_inner notify_count notify_loop usize
pushed = (_, after (after created (receives 0 7 (omega arith) refl)) (tries 5))

receiver_woken : pushed.0.shared.receiver_event.woken ≡ 7 ∷ []
unfolding pushed
receiver_woken = refl

receiver_never_misses_example :
    (c : Channel ℕ) × (st : WaitState) × (recv_poll 3 pushed.0.shared pushed.0.receiver 7
      ≡ some (c, st, recv_answer pushed.0.shared))
unfolding pushed
receiver_never_misses_example = receiver_never_misses 2 0 7 pushed.1 (omega arith)

answers_the_value : recv_answer pushed.0.shared ≡ ready (some 5)
unfolding pushed
answers_the_value = refl
