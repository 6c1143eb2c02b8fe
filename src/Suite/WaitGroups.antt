-- ===== src/Suite/WaitGroups.antt =====
-- The unit tests of src/waitgroup.rs: calls on one group, its tickets and the futures of `wait`.
use eneste_rs.Prelude.{
  ℕ, Bool, true, false, List, [], ◌∷◌, none, some, ◌==◌, ◌≡◌, refl, ◌&&◌, update, usize_add,
  usize_sub,
}
use eneste_rs.Event.{
  Poll, ready, pending, Waker, new_with, listen, notify, poll as event_poll, drop_listener,
  notify_inner, notify_count, notify_loop, hand_on, usize, is_closed,
}
use eneste_rs.Event.Map.{get, insert, remove, set_value}
use eneste_rs.Event.Stream.{poll_next, state_alive, stream, drop_stream}
use eneste_rs.WaitGroup.{
  WaitGroup, WaitState, start, new, add, len, is_empty, drop_ticket, leave, wait_loop, wait_poll,
  drop_wait,
}
use eneste_rs.Suite.{run, bool_eq, list_eq, all_pass}

-- A future of `wait` is named by a number; it is created at its first poll, which says whether it is
-- ready. `waits` is `block_on` of a new future.
data Act : Type 0 where
  adds : Act
  drops_ticket : Act
  has : ℕ → Act
  waits : Act
  polls : ℕ → Waker → Bool → Act
  drops_future : ℕ → Act
  woken : List Waker → Act

record Scene : Type 0 where
  group : WaitGroup
  futures : ℕ → WaitState

unfoldable is_ready : Poll (Unit {0}) → Bool
is_ready (ready u) = true
is_ready pending = false

-- One call: the state after it, and whether its outcome is the asserted one. A panic fails.
unfoldable act : Act → Scene → Scene × Bool
act adds x = (record x { group = add x.group }, true)
act drops_ticket x = (record x { group = drop_ticket x.group }, true)
act (has n) x = (x, len x.group == n && bool_eq (is_empty x.group) (n == 0))
act waits x = elim (wait_poll 2 x.group start 0) [
  | none ↦ (x, false)
  | some (g, st, r) ↦ (record x { group = g }, is_ready r)
]
act (polls k cx b) x = elim (wait_poll 2 x.group (x.futures k) cx) [
  | none ↦ (x, false)
  | some (g, st, r) ↦
      (record { group = g; futures = update x.futures k st }, bool_eq (is_ready r) b)
]
act (drops_future k) x = (record x { group = drop_wait x.group (x.futures k) }, true)
act (woken ws) x = (x, list_eq (λ a b. a == b) x.group.event.woken ws)

unfoldable passes : List Act → Bool
passes script = run act script (record { group = new; futures = λ k. start })

abbrev Script : Type 0
Script = List Act

abbrev new_wait_group_is_empty : Script
new_wait_group_is_empty = has 0 ∷ []

abbrev default_matches_new : Script
default_matches_new = has 0 ∷ []

abbrev add_increments_len : Script
add_increments_len = adds ∷ has 1 ∷ adds ∷ adds ∷ has 3 ∷ []

abbrev dropping_ticket_decrements_len : Script
dropping_ticket_decrements_len = adds ∷ adds ∷ drops_ticket ∷ has 1 ∷ drops_ticket ∷ has 0 ∷ []

abbrev wait_returns_immediately_when_empty : Script
wait_returns_immediately_when_empty = waits ∷ []

abbrev wait_completes_immediately_after_all_tickets_were_dropped : Script
wait_completes_immediately_after_all_tickets_were_dropped =
    adds ∷ drops_ticket ∷ adds ∷ drops_ticket ∷ waits ∷ []

abbrev wait_is_pending_while_a_ticket_is_outstanding : Script
wait_is_pending_while_a_ticket_is_outstanding = adds ∷ polls 1 0 false ∷ []

abbrev wait_wakes_and_completes_when_ticket_is_dropped : Script
wait_wakes_and_completes_when_ticket_is_dropped =
    adds ∷ polls 1 7 false ∷ woken [] ∷ drops_ticket ∷ woken (7 ∷ []) ∷ polls 1 7 true ∷ []

abbrev wait_stays_pending_until_every_ticket_is_dropped : Script
wait_stays_pending_until_every_ticket_is_dropped =
    adds
    ∷ adds
    ∷ polls 1 7 false
    ∷ drops_ticket
    ∷ polls 1 7 false
    ∷ drops_ticket
    ∷ polls 1 7 true
    ∷ []

abbrev wait_completes_when_all_tickets_drop_before_next_poll : Script
wait_completes_when_all_tickets_drop_before_next_poll =
    adds
    ∷ adds
    ∷ adds
    ∷ polls 1 7 false
    ∷ drops_ticket
    ∷ drops_ticket
    ∷ drops_ticket
    ∷ polls 1 7 true
    ∷ []

abbrev wait_group_can_be_reused_after_waiting : Script
wait_group_can_be_reused_after_waiting =
    adds
    ∷ drops_ticket
    ∷ waits
    ∷ adds
    ∷ has 1
    ∷ polls 1 0 false
    ∷ drops_future 1
    ∷ drops_ticket
    ∷ waits
    ∷ has 0
    ∷ []

abbrev scripts : List Script
scripts =
    new_wait_group_is_empty ∷ default_matches_new ∷ add_increments_len
    ∷ dropping_ticket_decrements_len ∷ wait_returns_immediately_when_empty
    ∷ wait_completes_immediately_after_all_tickets_were_dropped
    ∷ wait_is_pending_while_a_ticket_is_outstanding
    ∷ wait_wakes_and_completes_when_ticket_is_dropped
    ∷ wait_stays_pending_until_every_ticket_is_dropped
    ∷ wait_completes_when_all_tickets_drop_before_next_poll ∷ wait_group_can_be_reused_after_waiting
    ∷ []

waitgroups_pass : all_pass passes scripts ≡ true
unfolding all_pass passes run act is_ready bool_eq list_eq new add len is_empty drop_ticket leave
    wait_loop wait_poll drop_wait poll_next state_alive stream drop_stream new_with listen notify
    event_poll drop_listener notify_inner notify_count notify_loop hand_on usize get insert remove
    set_value usize_add usize_sub is_closed
waitgroups_pass = refl
