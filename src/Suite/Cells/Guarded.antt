-- ===== src/Suite/Cells/Guarded.antt =====
-- The unit tests of src/ref_cell.rs: calls on some cells, their guards and their streams.
use eneste_rs.Prelude.{
  ℕ, Bool, true, false, not, List, [], ◌∷◌, Option, none, some, ◌==◌, ◌≡◌, refl, update, usize_add,
  usize_sub,
}
use eneste_rs.Event.{
  Poll, ready, pending, Waker, new_with, listen, notify, poll as event_poll, drop_listener,
  notify_inner, notify_count, notify_loop, hand_on, usize, is_closed,
}
use eneste_rs.Event.Map.{get, insert, remove, set_value}
use eneste_rs.Event.Stream.{StreamState, done, poll_next, state_alive, stream}
use eneste_rs.Cells.{
  ObservableRefCell, CellRefMut, new, clone, borrow, drop_ref, borrow_mut, write, drop_ref_mut, eq,
  subscribe,
}
use eneste_rs.Suite.{run, bool_eq, list_eq, option_eq, poll_eq, unit_eq, all_pass}
use eneste_rs.Suite.Cells.{answers}

-- Cells, mutable guards and streams are named by numbers; strings and vectors are numbers too. A borrow
-- says whether it is granted: `borrow` and `borrow_mut` panic where it is not. `shows` reads through a
-- guard that is dropped at once.
data Act : Type 0 where
  creates : ℕ → ℕ → Act
  clones : ℕ → ℕ → Act
  borrows : ℕ → Bool → Act
  drops_ref : ℕ → Act
  shows : ℕ → ℕ → Act
  borrows_mut : ℕ → ℕ → Bool → Act
  writes : ℕ → ℕ → ℕ → Act
  drops_ref_mut : ℕ → ℕ → Act
  equal : ℕ → ℕ → Bool → Act
  subscribes : ℕ → ℕ → Act
  polls : ℕ → ℕ → Waker → Poll (Option (Unit {0})) → Act
  woken : ℕ → List Waker → Act

record Scene : Type 0 where
  cells : ℕ → ObservableRefCell ℕ
  guards : ℕ → CellRefMut
  streams : ℕ → StreamState

-- One call: the state after it, and whether its outcome is the asserted one.
unfoldable act : Act → Scene → Scene × Bool
act (creates c v) x = (record x { cells = update x.cells c (new v) }, true)
act (clones c d) x = elim (clone (x.cells c)) [
  | none ↦ (x, false)
  | some cell ↦ (record x { cells = update x.cells d cell }, true)
]
act (borrows c b) x = elim (borrow (x.cells c)) [
  | none ↦ (x, not b)
  | some cell ↦ (record x { cells = update x.cells c cell }, b)
]
act (drops_ref c) x = (record x { cells = update x.cells c (drop_ref (x.cells c)) }, true)
act (shows c v) x = elim (borrow (x.cells c)) [
  | none ↦ (x, false)
  | some cell ↦ (x, cell.value == v)
]
act (borrows_mut c k b) x = elim (borrow_mut (x.cells c)) [
  | none ↦ (x, not b)
  | some (cell, g) ↦ (record x { cells = update x.cells c cell; guards = update x.guards k g }, b)
]
act (writes c k v) x =
    let (cell, g) = write (x.cells c) (x.guards k) v in
    (record x { cells = update x.cells c cell; guards = update x.guards k g }, true)
act (drops_ref_mut c k) x =
    (record x { cells = update x.cells c (drop_ref_mut (x.cells c) (x.guards k)) }, true)
act (equal c d b) x = elim (eq (λ m n. m == n) (x.cells c) (x.cells d)) [
  | none ↦ (x, false)
  | some same ↦ (x, bool_eq same b)
]
act (subscribes c s) x =
    let (cell, st) = subscribe (x.cells c) in
    (record x { cells = update x.cells c cell; streams = update x.streams s st }, true)
act (polls c s cx r) x =
    let (e, st, b) = answers (x.cells c).event (x.streams s) cx r in
    (
      record x {
        cells = update x.cells c (record (x.cells c) { event = e });
        streams = update x.streams s st;
      },
      b,
    )
act (woken c ws) x = (x, list_eq (λ a b. a == b) (x.cells c).event.woken ws)

unfoldable passes : List Act → Bool
passes script =
    run act script
      (record { cells = λ c. new 0; guards = λ k. record { mutated = false }; streams = λ s. done })

abbrev Script : Type 0
Script = List Act

abbrev changed : ℕ → ℕ → Act
changed c s = polls c s 0 (ready (some tt))

abbrev unchanged : ℕ → ℕ → Act
unchanged c s = polls c s 0 pending

-- `*cell.borrow_mut() = v`, and what follows it
abbrev mutates : ℕ → ℕ → Script → Script
mutates c v rest = borrows_mut c 9 true ∷ writes c 9 v ∷ drops_ref_mut c 9 ∷ rest

abbrev new_cell_exposes_initial_value : Script
new_cell_exposes_initial_value = creates 1 10 ∷ shows 1 10 ∷ []

abbrev borrow_mut_updates_the_value : Script
borrow_mut_updates_the_value = creates 1 1 ∷ mutates 1 12 (shows 1 12 ∷ [])

abbrev multiple_shared_borrows_coexist : Script
multiple_shared_borrows_coexist =
    creates 1 1 ∷ borrows 1 true ∷ borrows 1 true ∷ shows 1 1 ∷ borrows 1 true ∷ []

abbrev try_borrow_fails_while_mutably_borrowed : Script
try_borrow_fails_while_mutably_borrowed =
    creates 1 1
    ∷ borrows_mut 1 1 true
    ∷ borrows 1 false
    ∷ borrows_mut 1 2 false
    ∷ drops_ref_mut 1 1
    ∷ borrows 1 true
    ∷ drops_ref 1
    ∷ borrows_mut 1 2 true
    ∷ drops_ref_mut 1 2
    ∷ []

abbrev try_borrow_mut_fails_while_borrowed : Script
try_borrow_mut_fails_while_borrowed =
    creates 1 1
    ∷ borrows 1 true
    ∷ borrows_mut 1 1 false
    ∷ borrows 1 true
    ∷ drops_ref 1
    ∷ drops_ref 1
    ∷ borrows_mut 1 1 true
    ∷ drops_ref_mut 1 1
    ∷ []

abbrev borrow_mut_panics_while_borrowed : Script
borrow_mut_panics_while_borrowed = creates 1 1 ∷ borrows 1 true ∷ borrows_mut 1 1 false ∷ []

abbrev borrow_panics_while_mutably_borrowed : Script
borrow_panics_while_mutably_borrowed = creates 1 1 ∷ borrows_mut 1 1 true ∷ borrows 1 false ∷ []

abbrev try_borrow_mut_guard_mutates_and_notifies : Script
try_borrow_mut_guard_mutates_and_notifies =
    creates 1 1 ∷ subscribes 1 1 ∷ unchanged 1 1 ∷ mutates 1 2 (shows 1 2 ∷ changed 1 1 ∷ [])

abbrev mutation_notifies_subscribers_when_guard_drops : Script
mutation_notifies_subscribers_when_guard_drops =
    creates 1 0
    ∷ subscribes 1 1
    ∷ polls 1 1 7 pending
    ∷ borrows_mut 1 1 true
    ∷ writes 1 1 5
    ∷ woken 1 []
    ∷ drops_ref_mut 1 1
    ∷ woken 1 (7 ∷ [])
    ∷ polls 1 1 7 (ready (some tt))
    ∷ []

-- Reading through a mutable guard is no call on the cell.
abbrev read_only_access_through_borrow_mut_does_not_notify : Script
read_only_access_through_borrow_mut_does_not_notify =
    creates 1 3
    ∷ subscribes 1 1
    ∷ unchanged 1 1
    ∷ borrows_mut 1 1 true
    ∷ drops_ref_mut 1 1
    ∷ unchanged 1 1
    ∷ []

abbrev plain_shared_borrow_does_not_notify : Script
plain_shared_borrow_does_not_notify =
    creates 1 3 ∷ subscribes 1 1 ∷ unchanged 1 1 ∷ borrows 1 true ∷ drops_ref 1 ∷ unchanged 1 1 ∷ []

abbrev notification_is_sent_even_when_value_is_unchanged : Script
notification_is_sent_even_when_value_is_unchanged =
    creates 1 3 ∷ subscribes 1 1 ∷ unchanged 1 1 ∷ mutates 1 3 (changed 1 1 ∷ [])

abbrev multiple_mutations_in_one_guard_notify_once : Script
multiple_mutations_in_one_guard_notify_once =
    creates 1 0
    ∷ subscribes 1 1
    ∷ polls 1 1 7 pending
    ∷ borrows_mut 1 1 true
    ∷ writes 1 1 1
    ∷ writes 1 1 12
    ∷ writes 1 1 123
    ∷ drops_ref_mut 1 1
    ∷ woken 1 (7 ∷ [])
    ∷ changed 1 1
    ∷ unchanged 1 1
    ∷ []

abbrev every_subscriber_is_notified : Script
every_subscriber_is_notified =
    creates 1 0 ∷ subscribes 1 1 ∷ subscribes 1 2 ∷ mutates 1 1 (changed 1 1 ∷ changed 1 2 ∷ [])

abbrev subscriber_receives_successive_mutations : Script
subscriber_receives_successive_mutations =
    creates 1 0
    ∷ subscribes 1 1
    ∷ mutates 1 1 (
        changed 1 1
        ∷ unchanged 1 1
        ∷ mutates 1 2
            (changed 1 1 ∷ unchanged 1 1 ∷ mutates 1 3 (changed 1 1 ∷ unchanged 1 1 ∷ [])))

abbrev deref_mut_marks_guard_as_mutated : Script
deref_mut_marks_guard_as_mutated =
    creates 1 1 ∷ subscribes 1 1 ∷ unchanged 1 1 ∷ mutates 1 12 (changed 1 1 ∷ [])

abbrev borrow_trait_on_guard_does_not_notify_but_borrow_mut_trait_does : Script
borrow_trait_on_guard_does_not_notify_but_borrow_mut_trait_does =
    creates 1 1
    ∷ subscribes 1 1
    ∷ unchanged 1 1
    ∷ borrows_mut 1 1 true
    ∷ drops_ref_mut 1 1
    ∷ unchanged 1 1
    ∷ mutates 1 2 (shows 1 2 ∷ changed 1 1 ∷ [])

abbrev clone_creates_an_independent_cell : Script
clone_creates_an_independent_cell =
    creates 1 12 ∷ clones 1 2 ∷ mutates 2 123 (shows 1 12 ∷ shows 2 123 ∷ [])

abbrev clone_does_not_share_subscribers : Script
clone_does_not_share_subscribers =
    creates 1 0
    ∷ clones 1 2
    ∷ subscribes 1 1
    ∷ subscribes 2 2
    ∷ unchanged 1 1
    ∷ unchanged 2 2
    ∷ mutates 2 1 (changed 2 2 ∷ unchanged 1 1 ∷ [])

abbrev equality_compares_contents : Script
equality_compares_contents =
    creates 1 1 ∷ creates 2 1 ∷ creates 3 2 ∷ equal 1 2 true ∷ equal 1 3 false ∷ []

abbrev scripts : List Script
scripts =
    new_cell_exposes_initial_value ∷ borrow_mut_updates_the_value ∷ multiple_shared_borrows_coexist
    ∷ try_borrow_fails_while_mutably_borrowed ∷ try_borrow_mut_fails_while_borrowed
    ∷ borrow_mut_panics_while_borrowed ∷ borrow_panics_while_mutably_borrowed
    ∷ try_borrow_mut_guard_mutates_and_notifies ∷ mutation_notifies_subscribers_when_guard_drops
    ∷ read_only_access_through_borrow_mut_does_not_notify ∷ plain_shared_borrow_does_not_notify
    ∷ notification_is_sent_even_when_value_is_unchanged
    ∷ multiple_mutations_in_one_guard_notify_once ∷ every_subscriber_is_notified
    ∷ subscriber_receives_successive_mutations ∷ deref_mut_marks_guard_as_mutated
    ∷ borrow_trait_on_guard_does_not_notify_but_borrow_mut_trait_does
    ∷ clone_creates_an_independent_cell ∷ clone_does_not_share_subscribers
    ∷ equality_compares_contents ∷ []

guarded_pass : all_pass passes scripts ≡ true
unfolding all_pass passes run act answers unit_eq bool_eq list_eq option_eq poll_eq new clone borrow
    drop_ref borrow_mut write drop_ref_mut eq subscribe poll_next state_alive stream new_with listen
    notify event_poll drop_listener notify_inner notify_count notify_loop hand_on usize get insert
    remove set_value usize_add usize_sub is_closed
guarded_pass = refl
