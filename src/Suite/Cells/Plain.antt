-- ===== src/Suite/Cells/Plain.antt =====
-- The unit tests of src/cell.rs: calls on some cells and their streams.
use eneste_rs.Prelude.{
  ℕ, Bool, true, false, List, [], ◌∷◌, Option, some, ◌==◌, ◌≡◌, refl, update, usize_add, usize_sub,
}
use eneste_rs.Event.{
  Poll, ready, pending, Waker, new_with, listen, notify, poll as event_poll, drop_listener,
  notify_inner, notify_count, notify_loop, hand_on, usize, is_closed,
}
use eneste_rs.Event.Map.{get, insert, remove, set_value}
use eneste_rs.Event.Stream.{StreamState, done, poll_next, state_alive, stream}
use eneste_rs.Cells.{
  ObservableCell, new_cell, get_cell, clone_cell, set_cell, eq_cell, subscribe_cell,
}
use eneste_rs.Suite.{run, bool_eq, list_eq, option_eq, poll_eq, unit_eq, all_pass}
use eneste_rs.Suite.Cells.{answers}

-- Cells and streams are named by numbers. Characters and tuples are numbers too.
data Act : Type 0 where
  creates : ℕ → ℕ → Act
  clones : ℕ → ℕ → Act
  sets : ℕ → ℕ → Act
  reads : ℕ → ℕ → Act
  equal : ℕ → ℕ → Bool → Act
  subscribes : ℕ → ℕ → Act
  polls : ℕ → ℕ → Waker → Poll (Option (Unit {0})) → Act
  woken : ℕ → List Waker → Act

record Scene : Type 0 where
  cells : ℕ → ObservableCell ℕ
  streams : ℕ → StreamState

-- One call: the state after it, and whether its outcome is the asserted one.
unfoldable act : Act → Scene → Scene × Bool
act (creates c v) x = (record x { cells = update x.cells c (new_cell v) }, true)
act (clones c d) x = (record x { cells = update x.cells d (clone_cell (x.cells c)) }, true)
act (sets c v) x =
    (record x { cells = update x.cells c (set_cell (λ a b. a == b) (x.cells c) v) }, true)
act (reads c v) x = (x, get_cell (x.cells c) == v)
act (equal c d b) x = (x, bool_eq (eq_cell (λ m n. m == n) (x.cells c) (x.cells d)) b)
act (subscribes c s) x =
    let (cell, st) = subscribe_cell (x.cells c) in
    (record { cells = update x.cells c cell; streams = update x.streams s st }, true)
act (polls c s cx r) x =
    let (e, st, b) = answers (x.cells c).event (x.streams s) cx r in
    (
      record {
        cells = update x.cells c (record (x.cells c) { event = e });
        streams = update x.streams s st;
      },
      b,
    )
act (woken c ws) x = (x, list_eq (λ a b. a == b) (x.cells c).event.woken ws)

unfoldable passes : List Act → Bool
passes script = run act script (record { cells = λ c. new_cell 0; streams = λ s. done })

abbrev Script : Type 0
Script = List Act

abbrev changed : ℕ → ℕ → Act
changed c s = polls c s 0 (ready (some tt))

abbrev unchanged : ℕ → ℕ → Act
unchanged c s = polls c s 0 pending

abbrev new_starts_with_initial_value : Script
new_starts_with_initial_value = creates 1 42 ∷ reads 1 42 ∷ []

abbrev set_updates_stored_value : Script
set_updates_stored_value = creates 1 10 ∷ sets 1 20 ∷ reads 1 20 ∷ []

abbrev subscriber_is_pending_until_value_changes : Script
subscriber_is_pending_until_value_changes =
    creates 1 0 ∷ subscribes 1 1 ∷ unchanged 1 1 ∷ sets 1 1 ∷ changed 1 1 ∷ []

abbrev multiple_subscribers_are_notified_on_change : Script
multiple_subscribers_are_notified_on_change =
    creates 1 0
    ∷ subscribes 1 1
    ∷ subscribes 1 2
    ∷ unchanged 1 1
    ∷ unchanged 1 2
    ∷ sets 1 1
    ∷ changed 1 1
    ∷ changed 1 2
    ∷ []

abbrev repeated_changes_notify_same_subscriber : Script
repeated_changes_notify_same_subscriber =
    creates 1 0
    ∷ subscribes 1 1
    ∷ sets 1 1
    ∷ changed 1 1
    ∷ unchanged 1 1
    ∷ sets 1 2
    ∷ changed 1 1
    ∷ []

abbrev setting_same_value_does_not_notify : Script
setting_same_value_does_not_notify =
    creates 1 5 ∷ subscribes 1 1 ∷ unchanged 1 1 ∷ sets 1 5 ∷ unchanged 1 1 ∷ []

abbrev clone_copies_the_value_but_is_independent : Script
clone_copies_the_value_but_is_independent =
    creates 1 1 ∷ clones 1 2 ∷ sets 2 2 ∷ reads 1 1 ∷ reads 2 2 ∷ sets 1 3 ∷ reads 2 2 ∷ []

abbrev clone_does_not_share_subscribers : Script
clone_does_not_share_subscribers =
    creates 1 1
    ∷ clones 1 2
    ∷ subscribes 1 1
    ∷ subscribes 2 2
    ∷ unchanged 1 1
    ∷ unchanged 2 2
    ∷ sets 2 2
    ∷ changed 2 2
    ∷ unchanged 1 1
    ∷ []

-- `false` and `true` are 0 and 1.
abbrev change_wakes_waiting_subscriber : Script
change_wakes_waiting_subscriber =
    creates 1 0 ∷ subscribes 1 1 ∷ polls 1 1 7 pending ∷ sets 1 1 ∷ woken 1 (7 ∷ []) ∷ []

abbrev equality_compares_current_values : Script
equality_compares_current_values =
    creates 1 1 ∷ creates 2 1 ∷ equal 1 2 true ∷ sets 2 2 ∷ equal 1 2 false ∷ []

abbrev scripts : List Script
scripts =
    new_starts_with_initial_value ∷ set_updates_stored_value
    ∷ subscriber_is_pending_until_value_changes ∷ multiple_subscribers_are_notified_on_change
    ∷ repeated_changes_notify_same_subscriber ∷ setting_same_value_does_not_notify
    ∷ clone_copies_the_value_but_is_independent ∷ clone_does_not_share_subscribers
    ∷ change_wakes_waiting_subscriber ∷ equality_compares_current_values ∷ []

plain_pass : all_pass passes scripts ≡ true
unfolding all_pass passes run act answers unit_eq bool_eq list_eq option_eq poll_eq new_cell
    get_cell clone_cell set_cell eq_cell subscribe_cell poll_next state_alive stream new_with listen
    notify event_poll drop_listener notify_inner notify_count notify_loop hand_on usize get insert
    remove set_value usize_add usize_sub is_closed
plain_pass = refl
