-- ===== src/Suite/Channels/Oneshots.antt =====
-- The unit tests of src/channel/oneshot.rs: calls on the two ends of one channel.
use eneste_rs.Prelude.{
  ℕ, Bool, true, false, List, [], ◌∷◌, Option, none, some, ◌==◌, ◌≡◌, refl, usize_add, usize_sub,
}
use eneste_rs.Channel.{ChannelResult, ok, channel_error}
use eneste_rs.Event.{
  Poll, ready, pending, Waker, new_with, listen, notify, poll as event_poll, drop_listener,
  notify_inner, notify_count, notify_loop, hand_on, usize, drop_event, take_wakers,
}
use eneste_rs.Event.Map.{get, insert, remove, set_value}
use eneste_rs.Oneshot.{
  Channel, channel, drop_sender, send, close, try_recv, wait, poll, drop_receiver,
}
use eneste_rs.Suite.{run, bool_eq, list_eq, option_eq, poll_eq, unit_eq, all_pass}
use eneste_rs.Suite.Channels.{result_eq}

-- `awaits` is `block_on` of the receiver. `holds` says whether a value is in the channel; `woken` are the
-- calls of wakers so far.
data Act : Type 0 where
  sends : ℕ → ChannelResult (Unit {0}) → Act
  drops_sender : Act
  closes : Act
  tries : ChannelResult (Option ℕ) → Act
  polls : Waker → Poll (ChannelResult ℕ) → Act
  awaits : ChannelResult ℕ → Act
  drops_receiver : Act
  holds : Bool → Act
  woken : List Waker → Act

unfoldable is_some : Option ℕ → Bool
is_some none = false
is_some (some v) = true

-- One call: the state after it, and whether its outcome is the asserted one. A panic fails.
unfoldable act : Act → Channel ℕ → Channel ℕ × Bool
act (sends v r) c = elim (send c v) [
  | none ↦ (c, false)
  | some (c', answer) ↦ (c', result_eq unit_eq answer r)
]
act drops_sender c = (drop_sender c, true)
act closes c = (close c, true)
act (tries r) c =
    let (c', answer) = try_recv c in (c', result_eq (option_eq (λ a b. a == b)) answer r)
act (polls cx r) c = elim (poll c cx) [
  | none ↦ (c, false)
  | some (c', answer) ↦ (c', poll_eq (result_eq (λ a b. a == b)) answer r)
]
act (awaits r) c = elim (poll c 0) [
  | none ↦ (c, false)
  | some (c', answer) ↦ (c', poll_eq (result_eq (λ a b. a == b)) answer (ready r))
]
act drops_receiver c = (drop_receiver c, true)
act (holds b) c = (c, bool_eq (is_some c.value) b)
act (woken ws) c = (c, list_eq (λ a b. a == b) c.event.woken ws)

unfoldable passes : List Act → Bool
passes script = run act script channel

abbrev Script : Type 0
Script = List Act

abbrev receiver_starts_pending_until_sender_fires : Script
receiver_starts_pending_until_sender_fires = polls 0 pending ∷ sends 7 (ok tt) ∷ awaits (ok 7) ∷ []

abbrev sent_value_is_delivered_once : Script
sent_value_is_delivered_once = sends 42 (ok tt) ∷ awaits (ok 42) ∷ []

abbrev send_fails_after_receiver_is_dropped : Script
send_fails_after_receiver_is_dropped = drops_receiver ∷ sends 5 channel_error ∷ []

abbrev receiver_is_closed_after_sender_is_dropped : Script
receiver_is_closed_after_sender_is_dropped = drops_sender ∷ awaits channel_error ∷ []

abbrev value_can_be_awaited_after_sending : Script
value_can_be_awaited_after_sending = sends 5 (ok tt) ∷ awaits (ok 5) ∷ []

abbrev awaiting_after_the_sender_was_dropped_fails : Script
awaiting_after_the_sender_was_dropped_fails = drops_sender ∷ awaits channel_error ∷ []

-- The string "hello" is the number 5.
abbrev receiver_is_woken_by_send : Script
receiver_is_woken_by_send =
    polls 7 pending ∷ woken [] ∷ sends 5 (ok tt) ∷ woken (7 ∷ []) ∷ polls 7 (ready (ok 5)) ∷ []

abbrev receiver_is_woken_when_sender_is_dropped : Script
receiver_is_woken_when_sender_is_dropped =
    polls 7 pending ∷ drops_sender ∷ woken (7 ∷ []) ∷ polls 7 (ready channel_error) ∷ []

abbrev try_recv_is_none_before_anything_is_sent : Script
try_recv_is_none_before_anything_is_sent = tries (ok none) ∷ tries (ok none) ∷ []

abbrev try_recv_returns_the_value_once : Script
try_recv_returns_the_value_once = sends 3 (ok tt) ∷ tries (ok (some 3)) ∷ tries (ok none) ∷ []

abbrev try_recv_errors_after_sender_drop : Script
try_recv_errors_after_sender_drop = drops_sender ∷ tries channel_error ∷ []

abbrev try_recv_still_returns_a_value_sent_before_the_sender_dropped : Script
try_recv_still_returns_a_value_sent_before_the_sender_dropped =
    sends 1 (ok tt) ∷ tries (ok (some 1)) ∷ []

abbrev closing_the_receiver_makes_send_fail : Script
closing_the_receiver_makes_send_fail = closes ∷ sends 1 channel_error ∷ []

abbrev closing_the_receiver_makes_try_recv_fail : Script
closing_the_receiver_makes_try_recv_fail = closes ∷ tries channel_error ∷ []

abbrev closing_twice_is_harmless : Script
closing_twice_is_harmless = closes ∷ closes ∷ sends 1 channel_error ∷ []

abbrev closing_after_a_value_was_sent_keeps_the_value : Script
closing_after_a_value_was_sent_keeps_the_value = sends 8 (ok tt) ∷ closes ∷ tries (ok (some 8)) ∷ []

abbrev dropping_an_unsent_sender_does_not_panic_and_pending_receiver_can_be_dropped : Script
dropping_an_unsent_sender_does_not_panic_and_pending_receiver_can_be_dropped =
    polls 0 pending ∷ drops_sender ∷ drops_receiver ∷ []

-- The vector is the number 123.
abbrev supports_non_copy_payloads : Script
supports_non_copy_payloads = sends 123 (ok tt) ∷ awaits (ok 123) ∷ []

abbrev scripts : List Script
scripts =
    receiver_starts_pending_until_sender_fires ∷ sent_value_is_delivered_once
    ∷ send_fails_after_receiver_is_dropped ∷ receiver_is_closed_after_sender_is_dropped
    ∷ value_can_be_awaited_after_sending ∷ awaiting_after_the_sender_was_dropped_fails
    ∷ receiver_is_woken_by_send ∷ receiver_is_woken_when_sender_is_dropped
    ∷ try_recv_is_none_before_anything_is_sent ∷ try_recv_returns_the_value_once
    ∷ try_recv_errors_after_sender_drop
    ∷ try_recv_still_returns_a_value_sent_before_the_sender_dropped
    ∷ closing_the_receiver_makes_send_fail ∷ closing_the_receiver_makes_try_recv_fail
    ∷ closing_twice_is_harmless ∷ closing_after_a_value_was_sent_keeps_the_value
    ∷ dropping_an_unsent_sender_does_not_panic_and_pending_receiver_can_be_dropped
    ∷ supports_non_copy_payloads ∷ []

oneshots_pass : all_pass passes scripts ≡ true
unfolding all_pass passes run act is_some bool_eq list_eq option_eq poll_eq result_eq unit_eq
    channel drop_sender send close try_recv wait poll drop_receiver new_with listen notify
    event_poll drop_listener notify_inner notify_count notify_loop hand_on usize drop_event
    take_wakers get insert remove set_value usize_add usize_sub
oneshots_pass = refl
