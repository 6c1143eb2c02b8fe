-- ===== src/Suite/Events/Streams.antt =====
-- The unit tests of src/event.rs on values and streams.
use eneste_rs.Prelude.{
  ℕ, Bool, true, false, ◌≡◌, refl, List, [], ◌∷◌, none, some, ◌==◌, usize_max, usize_add, usize_sub,
}
use eneste_rs.Event.{
  Notification, ready, pending, usize, additional, with_value, new_with, listen, notify, is_closed,
  poll, drop_listener, drop_event, notify_inner, notify_additional, notify_count, notify_loop,
  hand_on, take_wakers,
}
use eneste_rs.Event.Map.{get, insert, remove, set_value}
use eneste_rs.Event.Stream.{stream, poll_next, state_alive}
use eneste_rs.Suite.{run, bool_eq, option_eq, poll_eq, all_pass}
use eneste_rs.Suite.Events.{
  Act, listens, notifies, polls, drops, drops_event, streams, polls_stream, act, passes,
}

abbrev Script : Type 0
Script = List (Act ℕ)

-- `usize::MAX` on an event without values is written with the value 0 here.
abbrev all : ℕ → Notification ℕ
all value = with_value (usize usize_max) value

abbrev one : ℕ → Notification ℕ
one value = with_value (usize 1) value

abbrev with_notification_delivers_typed_value : Script
with_notification_delivers_typed_value = listens ∷ notifies (one 42) ∷ polls 0 9 (ready 42) ∷ []

abbrev handed_off_notification_keeps_its_typed_value : Script
handed_off_notification_keeps_its_typed_value =
    listens ∷ listens ∷ notifies (one 99) ∷ drops 0 ∷ polls 1 9 (ready 99) ∷ []

abbrev with_notification_clones_value_for_each_listener : Script
with_notification_clones_value_for_each_listener =
    listens ∷ listens ∷ notifies (all 7) ∷ polls 0 9 (ready 7) ∷ polls 1 9 (ready 7) ∷ []

-- The strings "one" and "two" are the numbers 1 and 2.
abbrev additional_notification_can_carry_a_value : Script
additional_notification_can_carry_a_value =
    listens
    ∷ listens
    ∷ notifies (one 1)
    ∷ notifies (additional (one 2))
    ∷ polls 0 9 (ready 1)
    ∷ polls 1 9 (ready 2)
    ∷ []

-- The assertions of this test, as one Boolean; the string "tag" is the number 5.
unfoldable notification_trait_accessors : List Bool
notification_trait_accessors =
    ((usize 3).count == 3)
    ∷ bool_eq (usize 3).is_additional false
    ∷ (additional (usize 3)).is_additional
    ∷ ((additional (usize 3)).count == 3)
    ∷ ((with_value {V = ℕ} (usize 2) 5).count == 2)
    ∷ ((with_value {V = ℕ} (usize 2) 5).tag == 5)
    ∷ bool_eq (with_value {V = ℕ} (usize 2) 5).is_additional false
    ∷ (additional (with_value {V = ℕ} (usize 2) 5)).is_additional
    ∷ []

abbrev stream_is_pending_until_notified_and_then_yields : Script
stream_is_pending_until_notified_and_then_yields =
    streams 0 ∷ polls_stream 0 9 pending ∷ notifies (all 0) ∷ polls_stream 0 9 (ready (some 0)) ∷ []

abbrev stream_resubscribes_after_each_item : Script
stream_resubscribes_after_each_item =
    streams 0
    ∷ notifies (all 0)
    ∷ polls_stream 0 9 (ready (some 0))
    ∷ polls_stream 0 9 pending
    ∷ notifies (all 0)
    ∷ polls_stream 0 9 (ready (some 0))
    ∷ polls_stream 0 9 pending
    ∷ notifies (all 0)
    ∷ polls_stream 0 9 (ready (some 0))
    ∷ polls_stream 0 9 pending
    ∷ []

abbrev stream_yields_typed_values : Script
stream_yields_typed_values =
    streams 0
    ∷ notifies (all 1)
    ∷ polls_stream 0 9 (ready (some 1))
    ∷ polls_stream 0 9 pending
    ∷ notifies (all 2)
    ∷ polls_stream 0 9 (ready (some 2))
    ∷ []

abbrev multiple_streams_each_receive_broadcasts : Script
multiple_streams_each_receive_broadcasts =
    streams 0
    ∷ streams 1
    ∷ notifies (all 0)
    ∷ polls_stream 0 9 (ready (some 0))
    ∷ polls_stream 1 9 (ready (some 0))
    ∷ []

abbrev stream_ends_once_the_event_is_dropped : Script
stream_ends_once_the_event_is_dropped =
    streams 0
    ∷ notifies (all 0)
    ∷ polls_stream 0 9 (ready (some 0))
    ∷ drops_event
    ∷ polls_stream 0 9 (ready none)
    ∷ polls_stream 0 9 (ready none)
    ∷ []

abbrev waiting_stream_ends_when_the_event_is_dropped : Script
waiting_stream_ends_when_the_event_is_dropped =
    streams 0 ∷ polls_stream 0 9 pending ∷ drops_event ∷ polls_stream 0 9 (ready none) ∷ []

abbrev scripts : List Script
scripts =
    with_notification_delivers_typed_value ∷ handed_off_notification_keeps_its_typed_value
    ∷ with_notification_clones_value_for_each_listener ∷ additional_notification_can_carry_a_value
    ∷ stream_is_pending_until_notified_and_then_yields ∷ stream_resubscribes_after_each_item
    ∷ stream_yields_typed_values ∷ multiple_streams_each_receive_broadcasts
    ∷ stream_ends_once_the_event_is_dropped ∷ waiting_stream_ends_when_the_event_is_dropped ∷ []

streams_pass :
    (all_pass (passes (λ x y. x == y)) scripts ≡ true)
    × (all_pass (λ b. b) notification_trait_accessors ≡ true)
unfolding all_pass passes run act bool_eq option_eq poll_eq usize additional with_value new_with
    listen notify is_closed poll drop_listener drop_event notify_inner notify_additional
    notify_count notify_loop hand_on take_wakers get insert remove set_value stream poll_next
    state_alive notification_trait_accessors usize_add usize_sub
streams_pass = (refl, refl)
