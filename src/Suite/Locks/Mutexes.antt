-- ===== src/Suite/Locks/Mutexes.antt =====
-- The unit tests of src/lock/mutex.rs.
use eneste_rs.Prelude.{ℕ, true, false, ◌≡◌, refl, List, [], ◌∷◌, ◌==◌, usize_add, usize_sub}
use eneste_rs.Event.{
  new_with, listen, notify, poll as event_poll, drop_listener, notify_inner, notify_count,
  notify_loop, hand_on, usize,
}
use eneste_rs.Event.Map.{get, insert, remove, set_value}
use eneste_rs.Lock.{lock_poll, drop_future}
use eneste_rs.Mutex.{new, mutex_ops, deref, deref_set}
use eneste_rs.Suite.{run, bool_eq, list_eq, all_pass}
use eneste_rs.Suite.Locks.{
  Act, takes, polls, drops_future, drops_guard, reads, writes, woken, is_ready, act, passes,
}

-- The mode of a mutex is of the unit type. `lock` and `lock_rc` poll by the same code.
abbrev Script : Type 0
Script = List (Act (Unit {0}) ℕ)

abbrev lock_succeeds_without_contention : Script
lock_succeeds_without_contention = writes 5 ∷ polls tt 1 9 true ∷ reads 5 ∷ []

abbrev guard_allows_mutation_that_persists : Script
guard_allows_mutation_that_persists =
    writes 1 ∷ takes tt ∷ writes 42 ∷ drops_guard tt ∷ takes tt ∷ reads 42 ∷ []

abbrev lock_is_pending_while_guard_is_alive : Script
lock_is_pending_while_guard_is_alive = takes tt ∷ polls tt 2 9 false ∷ drops_guard tt ∷ []

abbrev lock_becomes_ready_and_wakes_after_guard_is_dropped : Script
lock_becomes_ready_and_wakes_after_guard_is_dropped =
    takes tt
    ∷ polls tt 2 7 false
    ∷ woken []
    ∷ drops_guard tt
    ∷ woken (7 ∷ [])
    ∷ polls tt 2 7 true
    ∷ reads 0
    ∷ []

-- The body of the loop of the next test, and what follows it
abbrev round : ℕ → Script → Script
round i rest = takes tt ∷ writes i ∷ drops_guard tt ∷ rest

abbrev lock_can_be_reacquired_repeatedly : Script
lock_can_be_reacquired_repeatedly = round 1 (
    round 2 (
      round 3 (
        round 4
          (round 5 (round 6 (round 7 (round 8 (round 9 (round 10 (takes tt ∷ reads 10 ∷ []))))))))))

abbrev dropping_a_pending_lock_future_does_not_hold_the_lock : Script
dropping_a_pending_lock_future_does_not_hold_the_lock =
    takes tt ∷ polls tt 2 9 false ∷ drops_future 2 ∷ drops_guard tt ∷ takes tt ∷ []

abbrev dropping_a_never_polled_lock_future_is_harmless : Script
dropping_a_never_polled_lock_future_is_harmless = drops_future 1 ∷ takes tt ∷ []

abbrev rc_lock_succeeds_without_contention : Script
rc_lock_succeeds_without_contention = writes 7 ∷ takes tt ∷ reads 7 ∷ []

abbrev rc_lock_is_pending_while_locked_and_ready_after_release : Script
rc_lock_is_pending_while_locked_and_ready_after_release =
    takes tt ∷ polls tt 2 7 false ∷ drops_guard tt ∷ woken (7 ∷ []) ∷ polls tt 2 7 true ∷ []

abbrev rc_and_borrowed_locks_exclude_each_other : Script
rc_and_borrowed_locks_exclude_each_other =
    takes tt ∷ polls tt 2 9 false ∷ drops_guard tt ∷ polls tt 2 9 true ∷ polls tt 3 9 false ∷ []

abbrev rc_guard_keeps_the_mutex_state_alive_after_the_mutex_is_dropped : Script
rc_guard_keeps_the_mutex_state_alive_after_the_mutex_is_dropped = writes 3 ∷ takes tt ∷ reads 3 ∷ []

-- The third future was woken by the second one's guard already when that was taken, and once more, after
-- its poll, when it was dropped.
abbrev waiters_acquire_the_lock_in_turn : Script
waiters_acquire_the_lock_in_turn =
    takes tt
    ∷ polls tt 2 7 false
    ∷ polls tt 3 7 false
    ∷ drops_guard tt
    ∷ polls tt 2 7 true
    ∷ polls tt 3 7 false
    ∷ woken (7 ∷ 7 ∷ [])
    ∷ drops_guard tt
    ∷ woken (7 ∷ 7 ∷ 7 ∷ [])
    ∷ polls tt 3 7 true
    ∷ []

abbrev scripts : List Script
scripts =
    lock_succeeds_without_contention ∷ guard_allows_mutation_that_persists
    ∷ lock_is_pending_while_guard_is_alive ∷ lock_becomes_ready_and_wakes_after_guard_is_dropped
    ∷ lock_can_be_reacquired_repeatedly ∷ dropping_a_pending_lock_future_does_not_hold_the_lock
    ∷ dropping_a_never_polled_lock_future_is_harmless ∷ rc_lock_succeeds_without_contention
    ∷ rc_lock_is_pending_while_locked_and_ready_after_release
    ∷ rc_and_borrowed_locks_exclude_each_other
    ∷ rc_guard_keeps_the_mutex_state_alive_after_the_mutex_is_dropped
    ∷ waiters_acquire_the_lock_in_turn ∷ []

mutexes_pass : all_pass (passes mutex_ops deref deref_set (λ x y. x == y) (new 0)) scripts ≡ true
unfolding all_pass passes run act is_ready bool_eq list_eq new mutex_ops deref deref_set lock_poll
    drop_future new_with listen notify event_poll drop_listener notify_inner notify_count
    notify_loop hand_on usize get insert remove set_value usize_add usize_sub
mutexes_pass = refl
