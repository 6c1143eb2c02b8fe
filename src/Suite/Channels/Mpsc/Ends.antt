-- ===== src/Suite/Channels/Mpsc/Ends.antt =====
-- The unit tests of src/channel/mpsc.rs: the ends of a channel, and waking.
use eneste_rs.Prelude.{true, false, List, [], ◌∷◌, none, some, ◌≡◌, refl, usize_add, usize_sub}
use eneste_rs.Channel.{ok, channel_error}
use eneste_rs.Event.{
  ready, pending, new_with, listen, notify, poll as event_poll, drop_listener, notify_inner,
  notify_count, notify_loop, hand_on, usize, drop_event, take_wakers,
}
use eneste_rs.Event.Map.{get, insert, remove, set_value}
use eneste_rs.Mpsc.{
  accepted, rejected, channel, push, try_send, sender_is_closed, drop_sender, clone_sender, send,
  send_poll, drop_send, is_empty, is_full, receiver_is_closed, recv_poll, drop_receiver,
  drop_recv_state,
}
use eneste_rs.Suite.{run, bool_eq, list_eq, option_eq, poll_eq, unit_eq, all_pass}
use eneste_rs.Suite.Channels.{result_eq}
use eneste_rs.Suite.Channels.Mpsc.{
  got, ended, nothing, act, try_eq, passes, Script, try_sends, clones, drops_sender, sends,
  polls_send, receives, drops_receiver, sender_closed, receiver_closed, held, sender_woken,
  receiver_woken,
}

abbrev send_fails_once_the_receiver_is_gone : Script
send_fails_once_the_receiver_is_gone =
    (1, drops_receiver ∷ sends 1 1 ∷ polls_send 1 0 (ready channel_error) ∷ [])

-- The string "value" is the number 5, and "a" and "b" below are 1 and 2.
abbrev try_send_hands_the_value_back_once_the_receiver_is_gone : Script
try_send_hands_the_value_back_once_the_receiver_is_gone =
    (1, drops_receiver ∷ sender_closed true ∷ try_sends 5 (rejected 5) ∷ [])

abbrev receiver_is_pending_on_an_empty_channel_with_live_senders : Script
receiver_is_pending_on_an_empty_channel_with_live_senders = (1, nothing ∷ drops_sender ∷ [])

abbrev receiver_ends_immediately_when_all_senders_are_dropped_and_queue_is_empty : Script
receiver_ends_immediately_when_all_senders_are_dropped_and_queue_is_empty =
    (1, drops_sender ∷ receiver_closed true ∷ ended ∷ [])

abbrev receiver_drains_queued_items_before_reporting_the_end : Script
receiver_drains_queued_items_before_reporting_the_end =
    (3, try_sends 1 accepted ∷ try_sends 2 accepted ∷ drops_sender ∷ got 1 ∷ got 2 ∷ ended ∷ [])

abbrev cloned_senders_feed_the_same_receiver : Script
cloned_senders_feed_the_same_receiver =
    (4, clones ∷ try_sends 1 accepted ∷ try_sends 2 accepted ∷ got 1 ∷ got 2 ∷ nothing ∷ [])

abbrev channel_stays_open_until_the_last_sender_clone_is_dropped : Script
channel_stays_open_until_the_last_sender_clone_is_dropped = (
  1,
  clones
      ∷ sender_closed false
      ∷ drops_sender
      ∷ receiver_closed false
      ∷ sender_closed false
      ∷ drops_sender
      ∷ receiver_closed true
      ∷ [],
)

abbrev receiver_is_woken_when_the_last_sender_is_dropped : Script
receiver_is_woken_when_the_last_sender_is_dropped =
    (1, receives 7 pending ∷ drops_sender ∷ receiver_woken (7 ∷ []) ∷ receives 7 (ready none) ∷ [])

abbrev send_futures_from_a_sender_clone_outlive_the_original_sender : Script
send_futures_from_a_sender_clone_outlive_the_original_sender =
    (1, clones ∷ drops_sender ∷ sends 1 5 ∷ polls_send 1 0 (ready (ok tt)) ∷ got 5 ∷ [])

-- The count of the tracked value is one more than the values in the queue.
abbrev queued_values_are_dropped_with_the_receiver : Script
queued_values_are_dropped_with_the_receiver = (
  2,
  try_sends 1 accepted
      ∷ try_sends 1 accepted
      ∷ held 2
      ∷ drops_receiver
      ∷ held 0
      ∷ drops_sender
      ∷ [],
)

abbrev receiver_wakes_for_a_second_item_after_consuming_the_first : Script
receiver_wakes_for_a_second_item_after_consuming_the_first = (
  2,
  receives 7 pending
      ∷ try_sends 1 accepted
      ∷ receiver_woken (7 ∷ [])
      ∷ receives 7 (ready (some 1))
      ∷ receives 7 pending
      ∷ try_sends 2 accepted
      ∷ receiver_woken (7 ∷ 7 ∷ [])
      ∷ receives 7 (ready (some 2))
      ∷ [],
)

abbrev blocked_senders_proceed_one_at_a_time : Script
blocked_senders_proceed_one_at_a_time = (
  1,
  try_sends 0 accepted
      ∷ sends 1 1
      ∷ sends 2 2
      ∷ polls_send 1 7 pending
      ∷ polls_send 2 7 pending
      ∷ got 0
      ∷ polls_send 1 7 (ready (ok tt))
      ∷ polls_send 2 7 pending
      ∷ sender_woken (7 ∷ [])
      ∷ got 1
      ∷ sender_woken (7 ∷ 7 ∷ [])
      ∷ polls_send 2 7 (ready (ok tt))
      ∷ got 2
      ∷ [],
)

abbrev scripts : List Script
scripts =
    send_fails_once_the_receiver_is_gone ∷ try_send_hands_the_value_back_once_the_receiver_is_gone
    ∷ receiver_is_pending_on_an_empty_channel_with_live_senders
    ∷ receiver_ends_immediately_when_all_senders_are_dropped_and_queue_is_empty
    ∷ receiver_drains_queued_items_before_reporting_the_end ∷ cloned_senders_feed_the_same_receiver
    ∷ channel_stays_open_until_the_last_sender_clone_is_dropped
    ∷ receiver_is_woken_when_the_last_sender_is_dropped
    ∷ send_futures_from_a_sender_clone_outlive_the_original_sender
    ∷ queued_values_are_dropped_with_the_receiver
    ∷ receiver_wakes_for_a_second_item_after_consuming_the_first
    ∷ blocked_senders_proceed_one_at_a_time ∷ []

ends_pass : all_pass passes scripts ≡ true
unfolding all_pass passes run act try_eq bool_eq list_eq option_eq poll_eq result_eq unit_eq channel
    push try_send sender_is_closed drop_sender clone_sender send send_poll drop_send is_empty
    is_full receiver_is_closed recv_poll drop_receiver drop_recv_state new_with listen notify
    event_poll drop_listener notify_inner notify_count notify_loop hand_on usize drop_event
    take_wakers get insert remove set_value usize_add usize_sub
ends_pass = refl
