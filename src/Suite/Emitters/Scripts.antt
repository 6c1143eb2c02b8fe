-- ===== src/Suite/Emitters/Scripts.antt =====
-- The unit tests of src/emitter.rs.
use Prim.Native.Nat.{◌*◌}
use eneste_rs.Prelude.{
  ℕ, Bool, true, false, List, [], ◌∷◌, none, some, ◌==◌, ltb, ◌≡◌, refl, usize_add, usize_sub,
  if◌then◌else◌,
}
use eneste_rs.Event.{
  ready, pending, new_with, listen, notify, poll as event_poll, drop_listener, notify_inner,
  notify_count, notify_loop, hand_on, usize, with_value, drop_event, take_wakers, is_closed,
}
use eneste_rs.Event.Map.{get, insert, remove, set_value}
use eneste_rs.Event.Stream.{poll_next, event_alive, drop_stream}
use eneste_rs.Emitter.{new, subscribe, emit, emitter_poll_next, listener_poll, subscribe_once_poll}
use eneste_rs.Emitter.Delivery.{stream_poll}
use eneste_rs.Suite.{run, bool_eq, list_eq, option_eq, poll_eq, all_pass}
use eneste_rs.Suite.Emitters.{
  Act, act, call, poll_listener, run_tasks, subscribe_as, drop_source, is_ready, once_eq,
  iter_poll_next, poll_source, passes, Script, emits, subscribes, iterates, polls, drops_stream,
  drops_emitter, polls_once, polls_listener, spawns, runs, has_pending, logs, woken,
}

abbrev go_on : ℕ → ℕ → ℕ × Bool
go_on k v = (v, true)

abbrev below : ℕ → ℕ → ℕ → ℕ × Bool
below n k v = (v, ltb v n)

abbrev got : ℕ → ℕ → Act
got s v = polls s 0 (ready (some v))

abbrev nothing : ℕ → Act
nothing s = polls s 0 pending

abbrev ended : ℕ → Act
ended s = polls s 0 (ready none)

abbrev emitted_value_reaches_single_subscriber : Script
emitted_value_reaches_single_subscriber = (go_on, subscribes 1 ∷ nothing 1 ∷ emits 5 ∷ got 1 5 ∷ [])

abbrev emitted_value_is_broadcast_to_all_subscribers : Script
emitted_value_is_broadcast_to_all_subscribers =
    (go_on, subscribes 1 ∷ subscribes 2 ∷ emits 8 ∷ got 1 8 ∷ got 2 8 ∷ [])

abbrev listener_stops_once_callback_returns_false : Script
listener_stops_once_callback_returns_false = (
  below 2,
  subscribes 1
      ∷ polls_listener 1 false
      ∷ emits 1
      ∷ polls_listener 1 false
      ∷ emits 2
      ∷ polls_listener 1 true
      ∷ logs 1 (1 ∷ 2 ∷ [])
      ∷ [],
)

abbrev stream_finishes_after_emitter_is_dropped : Script
stream_finishes_after_emitter_is_dropped =
    (go_on, subscribes 1 ∷ emits 13 ∷ drops_emitter ∷ got 1 13 ∷ ended 1 ∷ [])

abbrev subscriber_is_pending_until_a_value_is_emitted : Script
subscriber_is_pending_until_a_value_is_emitted =
    (go_on, subscribes 1 ∷ nothing 1 ∷ emits 1 ∷ got 1 1 ∷ [])

-- The strings are numbers.
abbrev emit_wakes_waiting_subscriber : Script
emit_wakes_waiting_subscriber =
    (go_on, subscribes 1 ∷ polls 1 7 pending ∷ emits 5 ∷ woken (7 ∷ []) ∷ [])

abbrev every_subscriber_receives_a_clone_of_the_value : Script
every_subscriber_receives_a_clone_of_the_value =
    (go_on, subscribes 1 ∷ subscribes 2 ∷ emits 5 ∷ got 1 5 ∷ got 2 5 ∷ [])

abbrev emit_without_subscribers_is_a_noop : Script
emit_without_subscribers_is_a_noop = (go_on, emits 1 ∷ subscribes 1 ∷ nothing 1 ∷ [])

abbrev values_emitted_before_subscribing_are_not_replayed : Script
values_emitted_before_subscribing_are_not_replayed =
    (go_on, emits 1 ∷ subscribes 1 ∷ emits 2 ∷ got 1 2 ∷ [])

abbrev stream_yields_successive_values_in_order : Script
stream_yields_successive_values_in_order = (
  go_on,
  subscribes 1
      ∷ emits 0
      ∷ got 1 0
      ∷ nothing 1
      ∷ emits 1
      ∷ got 1 1
      ∷ nothing 1
      ∷ emits 2
      ∷ got 1 2
      ∷ nothing 1
      ∷ emits 3
      ∷ got 1 3
      ∷ nothing 1
      ∷ emits 4
      ∷ got 1 4
      ∷ nothing 1
      ∷ [],
)

abbrev dropped_subscriber_does_not_disturb_the_others : Script
dropped_subscriber_does_not_disturb_the_others =
    (go_on, subscribes 1 ∷ subscribes 2 ∷ drops_stream 1 ∷ emits 7 ∷ got 2 7 ∷ [])

abbrev stream_ends_after_emitter_is_dropped : Script
stream_ends_after_emitter_is_dropped =
    (go_on, subscribes 1 ∷ emits 1 ∷ got 1 1 ∷ drops_emitter ∷ ended 1 ∷ ended 1 ∷ [])

abbrev waiting_stream_ends_when_emitter_is_dropped : Script
waiting_stream_ends_when_emitter_is_dropped =
    (go_on, subscribes 1 ∷ nothing 1 ∷ drops_emitter ∷ ended 1 ∷ [])

abbrev subscribe_once_resolves_with_the_first_value : Script
subscribe_once_resolves_with_the_first_value = (
  go_on,
  subscribes 1 ∷ polls_once 1 0 (some pending) ∷ emits 10 ∷ polls_once 1 0 (some (ready 10)) ∷ [],
)

abbrev subscribe_once_works_with_block_on : Script
subscribe_once_works_with_block_on =
    (go_on, subscribes 1 ∷ emits 5 ∷ polls_once 1 0 (some (ready 5)) ∷ [])

abbrev subscribe_once_panics_if_the_stream_ends_early : Script
subscribe_once_panics_if_the_stream_ends_early = (go_on, iterates 1 [] ∷ polls_once 1 0 none ∷ [])

abbrev listener_invokes_map_for_each_item_and_finishes_at_stream_end : Script
listener_invokes_map_for_each_item_and_finishes_at_stream_end =
    (go_on, iterates 1 (1 ∷ 2 ∷ 3 ∷ []) ∷ polls_listener 1 true ∷ logs 1 (1 ∷ 2 ∷ 3 ∷ []) ∷ [])

abbrev listener_stops_when_map_returns_false : Script
listener_stops_when_map_returns_false = (
  below 3,
  iterates 1 (1 ∷ 2 ∷ 3 ∷ 4 ∷ 5 ∷ 6 ∷ 7 ∷ 8 ∷ 9 ∷ 10 ∷ [])
      ∷ polls_listener 1 true
      ∷ logs 1 (1 ∷ 2 ∷ 3 ∷ [])
      ∷ [],
)

abbrev listener_does_not_call_map_again_after_finishing : Script
listener_does_not_call_map_again_after_finishing = (
  λ k v. (v, false),
  iterates 1 (1 ∷ 2 ∷ 3 ∷ 4 ∷ 5 ∷ 6 ∷ 7 ∷ 8 ∷ 9 ∷ 10 ∷ [])
      ∷ polls_listener 1 true
      ∷ polls_listener 1 true
      ∷ logs 1 (1 ∷ [])
      ∷ [],
)

abbrev listener_is_pending_while_the_stream_is_idle : Script
listener_is_pending_while_the_stream_is_idle = (
  go_on,
  subscribes 1
      ∷ polls_listener 1 false
      ∷ emits 1
      ∷ polls_listener 1 false
      ∷ emits 2
      ∷ polls_listener 1 false
      ∷ logs 1 (1 ∷ 2 ∷ [])
      ∷ [],
)

abbrev listener_finishes_when_the_emitter_goes_away : Script
listener_finishes_when_the_emitter_goes_away = (
  go_on,
  subscribes 1 ∷ emits 1 ∷ polls_listener 1 false ∷ drops_emitter ∷ polls_listener 1 true ∷ [],
)

abbrev listen_runs_callback_for_each_event_until_it_returns_false : Script
listen_runs_callback_for_each_event_until_it_returns_false = (
  below 2,
  spawns 1
      ∷ runs
      ∷ has_pending 1
      ∷ emits 1
      ∷ runs
      ∷ has_pending 1
      ∷ emits 2
      ∷ runs
      ∷ has_pending 0
      ∷ emits 3
      ∷ runs
      ∷ logs 1 (1 ∷ 2 ∷ [])
      ∷ [],
)

abbrev listen_task_completes_when_emitter_is_dropped : Script
listen_task_completes_when_emitter_is_dropped = (
  go_on,
  spawns 1 ∷ runs ∷ emits 1 ∷ runs ∷ has_pending 1 ∷ drops_emitter ∷ runs ∷ has_pending 0 ∷ [],
)

abbrev multiple_listeners_all_observe_the_same_events : Script
multiple_listeners_all_observe_the_same_events = (
  (λ k v. if k == 1 then (v, true) else (v * 10, true)),
  spawns 1
      ∷ spawns 2
      ∷ runs
      ∷ emits 1
      ∷ runs
      ∷ emits 2
      ∷ runs
      ∷ logs 1 (1 ∷ 2 ∷ [])
      ∷ logs 2 (10 ∷ 20 ∷ [])
      ∷ [],
)

abbrev scripts : List Script
scripts =
    emitted_value_reaches_single_subscriber ∷ emitted_value_is_broadcast_to_all_subscribers
    ∷ listener_stops_once_callback_returns_false ∷ stream_finishes_after_emitter_is_dropped
    ∷ subscriber_is_pending_until_a_value_is_emitted ∷ emit_wakes_waiting_subscriber
    ∷ every_subscriber_receives_a_clone_of_the_value ∷ emit_without_subscribers_is_a_noop
    ∷ values_emitted_before_subscribing_are_not_replayed ∷ stream_yields_successive_values_in_order
    ∷ dropped_subscriber_does_not_disturb_the_others ∷ stream_ends_after_emitter_is_dropped
    ∷ waiting_stream_ends_when_emitter_is_dropped ∷ subscribe_once_resolves_with_the_first_value
    ∷ subscribe_once_works_with_block_on ∷ subscribe_once_panics_if_the_stream_ends_early
    ∷ listener_invokes_map_for_each_item_and_finishes_at_stream_end
    ∷ listener_stops_when_map_returns_false ∷ listener_does_not_call_map_again_after_finishing
    ∷ listener_is_pending_while_the_stream_is_idle ∷ listener_finishes_when_the_emitter_goes_away
    ∷ listen_runs_callback_for_each_event_until_it_returns_false
    ∷ listen_task_completes_when_emitter_is_dropped ∷ multiple_listeners_all_observe_the_same_events
    ∷ []

emitters_pass : all_pass passes scripts ≡ true
unfolding all_pass passes run act call poll_listener run_tasks subscribe_as drop_source is_ready
    once_eq iter_poll_next poll_source stream_poll bool_eq list_eq option_eq poll_eq new subscribe
    emit emitter_poll_next listener_poll subscribe_once_poll poll_next event_alive drop_stream
    new_with listen notify event_poll drop_listener notify_inner notify_count notify_loop hand_on
    usize with_value drop_event take_wakers get insert remove set_value usize_add usize_sub
    is_closed
emitters_pass = refl
