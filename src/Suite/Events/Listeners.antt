-- ===== src/Suite/Events/Listeners.antt =====
-- The unit tests of listeners and notifications in src/event.rs.
use eneste_rs.Prelude.{true, false, ◌≡◌, refl, List, [], ◌∷◌, usize_max, usize_add, usize_sub}
use eneste_rs.Event.{
  ready, pending, usize, additional, new_with, listen, notify, is_notified, is_terminated, poll,
  drop_listener, drop_event, notify_inner, notify_additional, notify_count, notify_loop, hand_on,
  take_wakers,
}
use eneste_rs.Event.Map.{get, insert, remove, set_value}
use eneste_rs.Suite.{run, bool_eq, list_eq, poll_eq, all_pass}
use eneste_rs.Suite.Events.{
  Act, listens, notifies, notified, terminated, polls, drops, drops_event, woken, act, passes,
}

abbrev Script : Type 0
Script = List (Act (Unit {0}))

abbrev listener_starts_unnotified_and_pending : Script
listener_starts_unnotified_and_pending =
    listens ∷ notified 0 false ∷ terminated 0 false ∷ polls 0 9 pending ∷ []

abbrev notify_one_notifies_earliest_listener : Script
notify_one_notifies_earliest_listener =
    listens
    ∷ listens
    ∷ notifies (usize 1)
    ∷ notified 0 true
    ∷ notified 1 false
    ∷ polls 0 9 (ready tt)
    ∷ polls 1 9 pending
    ∷ []

abbrev notify_all_notifies_all_active_listeners : Script
notify_all_notifies_all_active_listeners =
    listens
    ∷ listens
    ∷ listens
    ∷ notifies (usize usize_max)
    ∷ polls 0 9 (ready tt)
    ∷ polls 1 9 (ready tt)
    ∷ polls 2 9 (ready tt)
    ∷ []

abbrev additional_only_notifies_still_waiting_listeners : Script
additional_only_notifies_still_waiting_listeners =
    listens
    ∷ listens
    ∷ listens
    ∷ notifies (usize 1)
    ∷ notifies (additional (usize 1))
    ∷ polls 0 9 (ready tt)
    ∷ polls 1 9 (ready tt)
    ∷ polls 2 9 pending
    ∷ []

abbrev listener_transitions_to_terminated_once_notified : Script
listener_transitions_to_terminated_once_notified =
    listens
    ∷ terminated 0 false
    ∷ notifies (usize 1)
    ∷ notified 0 true
    ∷ terminated 0 true
    ∷ polls 0 9 (ready tt)
    ∷ []

abbrev dropping_notified_listener_transfers_notification_to_next_waiting : Script
dropping_notified_listener_transfers_notification_to_next_waiting =
    listens
    ∷ listens
    ∷ listens
    ∷ notifies (usize 1)
    ∷ notified 0 true
    ∷ notified 1 false
    ∷ notified 2 false
    ∷ drops 0
    ∷ notified 1 true
    ∷ notified 2 false
    ∷ polls 1 9 (ready tt)
    ∷ polls 2 9 pending
    ∷ []

abbrev default_event_is_usable : Script
default_event_is_usable = listens ∷ notifies (usize 1) ∷ notified 0 true ∷ []

abbrev notify_without_listeners_is_a_noop : Script
notify_without_listeners_is_a_noop =
    notifies (usize 1)
    ∷ notifies (usize usize_max)
    ∷ notifies (additional (usize 3))
    ∷ listens
    ∷ notified 0 false
    ∷ []

abbrev notify_zero_notifies_nobody : Script
notify_zero_notifies_nobody = listens ∷ notifies (usize 0) ∷ notified 0 false ∷ []

abbrev notify_n_notifies_exactly_n_listeners_in_registration_order : Script
notify_n_notifies_exactly_n_listeners_in_registration_order =
    listens
    ∷ listens
    ∷ listens
    ∷ listens
    ∷ listens
    ∷ notifies (usize 3)
    ∷ notified 0 true
    ∷ notified 1 true
    ∷ notified 2 true
    ∷ notified 3 false
    ∷ notified 4 false
    ∷ []

abbrev notify_more_than_listener_count_notifies_everyone : Script
notify_more_than_listener_count_notifies_everyone =
    listens ∷ listens ∷ notifies (usize 10) ∷ notified 0 true ∷ notified 1 true ∷ []

abbrev notify_counts_already_notified_listeners_towards_the_total : Script
notify_counts_already_notified_listeners_towards_the_total =
    listens
    ∷ listens
    ∷ notifies (usize 1)
    ∷ notifies (usize 2)
    ∷ notified 0 true
    ∷ notified 1 true
    ∷ []

abbrev additional_notifications_stack_on_top_of_existing_ones : Script
additional_notifications_stack_on_top_of_existing_ones =
    listens
    ∷ listens
    ∷ listens
    ∷ listens
    ∷ notifies (usize 1)
    ∷ notifies (additional (usize 2))
    ∷ notified 0 true
    ∷ notified 1 true
    ∷ notified 2 true
    ∷ notified 3 false
    ∷ []

abbrev additional_max_notifies_every_waiting_listener : Script
additional_max_notifies_every_waiting_listener =
    listens
    ∷ listens
    ∷ listens
    ∷ notifies (usize 1)
    ∷ notifies (additional (usize usize_max))
    ∷ notified 0 true
    ∷ notified 1 true
    ∷ notified 2 true
    ∷ []

abbrev listener_created_after_notify_is_not_notified : Script
listener_created_after_notify_is_not_notified =
    listens ∷ notifies (usize usize_max) ∷ listens ∷ notified 0 true ∷ notified 1 false ∷ []

abbrev notify_wakes_the_registered_waker : Script
notify_wakes_the_registered_waker =
    listens
    ∷ polls 0 7 pending
    ∷ woken []
    ∷ notifies (usize 1)
    ∷ woken (7 ∷ [])
    ∷ polls 0 7 (ready tt)
    ∷ []

abbrev notify_only_wakes_selected_listeners : Script
notify_only_wakes_selected_listeners =
    listens
    ∷ listens
    ∷ polls 0 7 pending
    ∷ polls 1 8 pending
    ∷ notifies (usize 1)
    ∷ woken (7 ∷ [])
    ∷ []

abbrev notify_all_wakes_every_waiting_listener_once : Script
notify_all_wakes_every_waiting_listener_once =
    listens
    ∷ listens
    ∷ polls 0 7 pending
    ∷ polls 1 8 pending
    ∷ notifies (usize usize_max)
    ∷ notifies (usize usize_max)
    ∷ woken (7 ∷ 8 ∷ [])
    ∷ []

abbrev repolling_updates_the_stored_waker : Script
repolling_updates_the_stored_waker =
    listens ∷ polls 0 7 pending ∷ polls 0 8 pending ∷ notifies (usize 1) ∷ woken (8 ∷ []) ∷ []

abbrev polling_a_consumed_listener_is_pending_again : Script
polling_a_consumed_listener_is_pending_again =
    listens ∷ notifies (usize 1) ∷ polls 0 9 (ready tt) ∷ polls 0 9 pending ∷ []

abbrev dropping_an_unnotified_listener_does_not_affect_others : Script
dropping_an_unnotified_listener_does_not_affect_others =
    listens ∷ listens ∷ drops 0 ∷ notifies (usize 1) ∷ notified 1 true ∷ []

abbrev dropping_a_notified_listener_with_no_one_waiting_discards_the_notification : Script
dropping_a_notified_listener_with_no_one_waiting_discards_the_notification =
    listens
    ∷ notifies (usize 1)
    ∷ drops 0
    ∷ listens
    ∷ notified 1 false
    ∷ notifies (usize 1)
    ∷ notified 1 true
    ∷ []

abbrev dropping_a_notified_listener_wakes_the_listener_receiving_the_handoff : Script
dropping_a_notified_listener_wakes_the_listener_receiving_the_handoff =
    listens
    ∷ listens
    ∷ polls 1 7 pending
    ∷ notifies (usize 1)
    ∷ woken []
    ∷ drops 0
    ∷ woken (7 ∷ [])
    ∷ polls 1 7 (ready tt)
    ∷ []

abbrev dropping_the_event_wakes_pending_listeners : Script
dropping_the_event_wakes_pending_listeners =
    listens ∷ polls 0 7 pending ∷ drops_event ∷ woken (7 ∷ []) ∷ []

abbrev listener_outlives_its_event_without_panicking : Script
listener_outlives_its_event_without_panicking =
    listens ∷ drops_event ∷ notified 0 false ∷ drops 0 ∷ []

abbrev notify_one_still_works_after_a_notification_was_consumed : Script
notify_one_still_works_after_a_notification_was_consumed =
    listens
    ∷ notifies (usize 1)
    ∷ polls 0 9 (ready tt)
    ∷ drops 0
    ∷ listens
    ∷ notifies (usize 1)
    ∷ notified 1 true
    ∷ []

abbrev scripts : List Script
scripts =
    listener_starts_unnotified_and_pending ∷ notify_one_notifies_earliest_listener
    ∷ notify_all_notifies_all_active_listeners ∷ additional_only_notifies_still_waiting_listeners
    ∷ listener_transitions_to_terminated_once_notified
    ∷ dropping_notified_listener_transfers_notification_to_next_waiting ∷ default_event_is_usable
    ∷ notify_without_listeners_is_a_noop ∷ notify_zero_notifies_nobody
    ∷ notify_n_notifies_exactly_n_listeners_in_registration_order
    ∷ notify_more_than_listener_count_notifies_everyone
    ∷ notify_counts_already_notified_listeners_towards_the_total
    ∷ additional_notifications_stack_on_top_of_existing_ones
    ∷ additional_max_notifies_every_waiting_listener ∷ listener_created_after_notify_is_not_notified
    ∷ notify_wakes_the_registered_waker ∷ notify_only_wakes_selected_listeners
    ∷ notify_all_wakes_every_waiting_listener_once ∷ repolling_updates_the_stored_waker
    ∷ polling_a_consumed_listener_is_pending_again
    ∷ dropping_an_unnotified_listener_does_not_affect_others
    ∷ dropping_a_notified_listener_with_no_one_waiting_discards_the_notification
    ∷ dropping_a_notified_listener_wakes_the_listener_receiving_the_handoff
    ∷ dropping_the_event_wakes_pending_listeners ∷ listener_outlives_its_event_without_panicking
    ∷ notify_one_still_works_after_a_notification_was_consumed ∷ []

listeners_pass : all_pass (passes (λ x y. true)) scripts ≡ true
unfolding all_pass passes run act bool_eq list_eq poll_eq usize additional new_with listen notify
    is_notified is_terminated poll drop_listener drop_event notify_inner notify_additional
    notify_count notify_loop hand_on take_wakers get insert remove set_value usize_add usize_sub
listeners_pass = refl
