-- ===== src/Suite/Channels/Mpsc/Sending.antt =====
-- The unit tests of src/channel/mpsc.rs: values on their way.
use eneste_rs.Prelude.{true, false, List, [], ◌∷◌, ◌≡◌, refl, usize_add, usize_sub}
use eneste_rs.Channel.{ok, channel_error}
use eneste_rs.Event.{
  ready, pending, new_with, listen, notify, poll as event_poll, drop_listener, notify_inner,
  notify_count, notify_loop, hand_on, usize, drop_event, take_wakers,
}
use eneste_rs.Event.Map.{get, insert, remove, set_value}
use eneste_rs.Mpsc.{
  accepted, rejected, channel, push, try_send, sender_is_closed, drop_sender, clone_sender, send,
  send_poll, drop_send, is_empty, is_full, receiver_is_closed, recv_poll, drop_receiver,
  drop_recv_state,
}
use eneste_rs.Suite.{run, bool_eq, list_eq, option_eq, poll_eq, unit_eq, all_pass}
use eneste_rs.Suite.Channels.{result_eq}
use eneste_rs.Suite.Channels.Mpsc.{
  got, ended, nothing, act, try_eq, passes, Script, try_sends, clones, drops_sender, sends,
  polls_send, drops_send, receives, drops_receiver, sender_closed, receiver_closed, empty, full,
  sender_woken, receiver_woken,
}

abbrev receiver_wakes_when_data_becomes_available : Script
receiver_wakes_when_data_becomes_available = (
  1,
  receives 7 pending
      ∷ receiver_woken []
      ∷ try_sends 7 accepted
      ∷ receiver_woken (7 ∷ [])
      ∷ got 7
      ∷ [],
)

abbrev sender_wakes_when_capacity_becomes_available : Script
sender_wakes_when_capacity_becomes_available = (
  1,
  try_sends 1 accepted
      ∷ sends 1 2
      ∷ polls_send 1 7 pending
      ∷ sender_woken []
      ∷ got 1
      ∷ sender_woken (7 ∷ [])
      ∷ polls_send 1 0 (ready (ok tt))
      ∷ got 2
      ∷ [],
)

abbrev waiting_sender_errors_when_receiver_is_dropped : Script
waiting_sender_errors_when_receiver_is_dropped = (
  1,
  try_sends 1 accepted
      ∷ sends 1 2
      ∷ polls_send 1 7 pending
      ∷ sender_woken []
      ∷ drops_receiver
      ∷ sender_woken (7 ∷ [])
      ∷ polls_send 1 0 (ready channel_error)
      ∷ [],
)

abbrev receiver_finishes_only_after_queue_is_empty_and_all_senders_are_dropped : Script
receiver_finishes_only_after_queue_is_empty_and_all_senders_are_dropped = (
  2,
  clones
      ∷ try_sends 5 accepted
      ∷ drops_sender
      ∷ got 5
      ∷ receives 7 pending
      ∷ receiver_woken []
      ∷ drops_sender
      ∷ receiver_woken (7 ∷ [])
      ∷ ended
      ∷ [],
)

abbrev queue_state_tracks_fill_level_and_receiver_closure : Script
queue_state_tracks_fill_level_and_receiver_closure = (
  1,
  empty true
      ∷ full false
      ∷ receiver_closed false
      ∷ sender_closed false
      ∷ try_sends 3 accepted
      ∷ empty false
      ∷ full true
      ∷ drops_receiver
      ∷ sender_closed true
      ∷ try_sends 4 (rejected 4)
      ∷ [],
)

abbrev items_are_received_in_fifo_order : Script
items_are_received_in_fifo_order = (
  10,
  try_sends 0 accepted
      ∷ try_sends 1 accepted
      ∷ try_sends 2 accepted
      ∷ try_sends 3 accepted
      ∷ try_sends 4 accepted
      ∷ got 0
      ∷ got 1
      ∷ got 2
      ∷ got 3
      ∷ got 4
      ∷ nothing
      ∷ [],
)

abbrev try_send_returns_the_value_when_the_queue_is_full : Script
try_send_returns_the_value_when_the_queue_is_full = (
  2,
  try_sends 1 accepted
      ∷ try_sends 2 accepted
      ∷ try_sends 3 (rejected 3)
      ∷ got 1
      ∷ try_sends 3 accepted
      ∷ got 2
      ∷ got 3
      ∷ nothing
      ∷ [],
)

abbrev zero_capacity_channel_rejects_try_send : Script
zero_capacity_channel_rejects_try_send = (0, full true ∷ empty true ∷ try_sends 1 (rejected 1) ∷ [])

abbrev send_completes_immediately_when_there_is_capacity : Script
send_completes_immediately_when_there_is_capacity =
    (1, sends 1 9 ∷ polls_send 1 0 (ready (ok tt)) ∷ got 9 ∷ [])

abbrev send_is_pending_while_full_and_completes_after_a_receive : Script
send_is_pending_while_full_and_completes_after_a_receive = (
  1,
  try_sends 1 accepted
      ∷ sends 1 2
      ∷ polls_send 1 7 pending
      ∷ sender_woken []
      ∷ got 1
      ∷ sender_woken (7 ∷ [])
      ∷ polls_send 1 7 (ready (ok tt))
      ∷ got 2
      ∷ [],
)

abbrev dropping_a_pending_send_does_not_enqueue_its_value : Script
dropping_a_pending_send_does_not_enqueue_its_value = (
  1,
  try_sends 1 accepted ∷ sends 1 2 ∷ polls_send 1 0 pending ∷ drops_send 1 ∷ got 1 ∷ nothing ∷ [],
)

abbrev scripts : List Script
scripts =
    receiver_wakes_when_data_becomes_available ∷ sender_wakes_when_capacity_becomes_available
    ∷ waiting_sender_errors_when_receiver_is_dropped
    ∷ receiver_finishes_only_after_queue_is_empty_and_all_senders_are_dropped
    ∷ queue_state_tracks_fill_level_and_receiver_closure ∷ items_are_received_in_fifo_order
    ∷ try_send_returns_the_value_when_the_queue_is_full ∷ zero_capacity_channel_rejects_try_send
    ∷ send_completes_immediately_when_there_is_capacity
    ∷ send_is_pending_while_full_and_completes_after_a_receive
    ∷ dropping_a_pending_send_does_not_enqueue_its_value ∷ []

sending_pass : all_pass passes scripts ≡ true
unfolding all_pass passes run act try_eq bool_eq list_eq option_eq poll_eq result_eq unit_eq channel
    push try_send sender_is_closed drop_sender clone_sender send send_poll drop_send is_empty
    is_full receiver_is_closed recv_poll drop_receiver drop_recv_state new_with listen notify
    event_poll drop_listener notify_inner notify_count notify_loop hand_on usize drop_event
    take_wakers get insert remove set_value usize_add usize_sub
sending_pass = refl
