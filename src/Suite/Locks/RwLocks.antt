-- ===== src/Suite/Locks/RwLocks.antt =====
-- The unit tests of src/lock/rwlock.rs.
use eneste_rs.Prelude.{ℕ, true, false, ◌≡◌, refl, List, [], ◌∷◌, ◌==◌, usize_add, usize_sub}
use eneste_rs.Event.{
  new_with, listen, notify, poll as event_poll, drop_listener, notify_inner, notify_count,
  notify_loop, hand_on, usize,
}
use eneste_rs.Event.Map.{get, insert, remove, set_value}
use eneste_rs.Lock.{lock_poll, drop_future}
use eneste_rs.RwLock.{Mode, read, write, new, rwlock_ops, deref, deref_set}
use eneste_rs.Suite.{run, bool_eq, list_eq, all_pass}
use eneste_rs.Suite.Locks.{
  Act, takes, polls, drops_future, drops_guard, reads, writes, woken, is_ready, act, passes,
}

abbrev Script : Type 0
Script = List (Act Mode ℕ)

abbrev read_and_write_succeed_without_contention : Script
read_and_write_succeed_without_contention =
    writes 3
    ∷ takes read
    ∷ reads 3
    ∷ drops_guard read
    ∷ takes write
    ∷ writes 8
    ∷ drops_guard write
    ∷ takes read
    ∷ reads 8
    ∷ []

abbrev read_waits_for_active_writer_to_drop : Script
read_waits_for_active_writer_to_drop =
    writes 11
    ∷ takes write
    ∷ polls read 1 7 false
    ∷ woken []
    ∷ writes 12
    ∷ drops_guard write
    ∷ woken (7 ∷ [])
    ∷ polls read 1 9 true
    ∷ reads 12
    ∷ []

abbrev write_waits_for_active_reader_to_drop : Script
write_waits_for_active_reader_to_drop =
    writes 21
    ∷ takes read
    ∷ polls write 1 7 false
    ∷ woken []
    ∷ drops_guard read
    ∷ woken (7 ∷ [])
    ∷ polls write 1 9 true
    ∷ writes 34
    ∷ drops_guard write
    ∷ takes read
    ∷ reads 34
    ∷ []

abbrev lock_method_returns_guard_that_can_mutate_value : Script
lock_method_returns_guard_that_can_mutate_value =
    writes 5 ∷ takes write ∷ writes 99 ∷ drops_guard write ∷ takes read ∷ reads 99 ∷ []

abbrev lock_future_waits_until_reader_releases : Script
lock_future_waits_until_reader_releases =
    writes 1
    ∷ takes read
    ∷ polls write 1 7 false
    ∷ woken []
    ∷ drops_guard read
    ∷ woken (7 ∷ [])
    ∷ polls write 1 9 true
    ∷ writes 7
    ∷ drops_guard write
    ∷ takes read
    ∷ reads 7
    ∷ []

abbrev lock_guard_blocks_writer_until_dropped : Script
lock_guard_blocks_writer_until_dropped =
    writes 3
    ∷ takes write
    ∷ polls write 1 7 false
    ∷ woken []
    ∷ drops_guard write
    ∷ woken (7 ∷ [])
    ∷ polls write 1 9 true
    ∷ writes 10
    ∷ drops_guard write
    ∷ takes read
    ∷ reads 10
    ∷ []

abbrev multiple_readers_can_hold_the_lock_at_once : Script
multiple_readers_can_hold_the_lock_at_once =
    writes 4 ∷ takes read ∷ takes read ∷ takes read ∷ reads 4 ∷ []

abbrev writer_waits_for_every_reader : Script
writer_waits_for_every_reader =
    takes read
    ∷ takes read
    ∷ polls write 1 9 false
    ∷ drops_guard read
    ∷ polls write 1 9 false
    ∷ drops_guard read
    ∷ polls write 1 9 true
    ∷ []

abbrev readers_are_blocked_while_a_writer_holds_the_lock : Script
readers_are_blocked_while_a_writer_holds_the_lock =
    takes write
    ∷ polls read 1 9 false
    ∷ polls read 2 9 false
    ∷ drops_guard write
    ∷ polls read 1 9 true
    ∷ []

abbrev second_writer_waits_for_the_first : Script
second_writer_waits_for_the_first =
    takes write
    ∷ polls write 1 9 false
    ∷ polls write 2 9 false
    ∷ drops_guard write
    ∷ polls write 1 9 true
    ∷ []

-- The vectors are written as numbers.
abbrev writes_are_visible_to_later_readers : Script
writes_are_visible_to_later_readers =
    writes 1
    ∷ takes write
    ∷ writes 12
    ∷ drops_guard write
    ∷ takes write
    ∷ writes 123
    ∷ drops_guard write
    ∷ takes read
    ∷ reads 123
    ∷ drops_guard read
    ∷ takes read
    ∷ reads 123
    ∷ []

abbrev rc_reader_blocks_writers_until_dropped : Script
rc_reader_blocks_writers_until_dropped =
    writes 1
    ∷ takes read
    ∷ reads 1
    ∷ polls write 1 9 false
    ∷ drops_guard read
    ∷ polls write 1 9 true
    ∷ []

abbrev rc_readers_can_be_held_concurrently : Script
rc_readers_can_be_held_concurrently = takes read ∷ polls read 2 9 true ∷ drops_guard read ∷ []

abbrev rc_and_borrowed_readers_can_be_held_concurrently : Script
rc_and_borrowed_readers_can_be_held_concurrently =
    takes read ∷ polls read 2 9 true ∷ drops_guard read ∷ []

abbrev rc_guards_outlive_the_lock_handle : Script
rc_guards_outlive_the_lock_handle = writes 7 ∷ takes read ∷ reads 7 ∷ []

abbrev dropping_pending_futures_releases_nothing_and_blocks_nobody : Script
dropping_pending_futures_releases_nothing_and_blocks_nobody =
    takes write
    ∷ polls read 1 9 false
    ∷ polls write 2 9 false
    ∷ drops_future 2
    ∷ drops_future 1
    ∷ drops_guard write
    ∷ polls write 3 9 true
    ∷ []

abbrev waiting_reader_is_woken_when_writer_releases : Script
waiting_reader_is_woken_when_writer_releases =
    takes write
    ∷ polls read 1 7 false
    ∷ drops_guard write
    ∷ woken (7 ∷ [])
    ∷ polls read 1 7 true
    ∷ []

abbrev scripts : List Script
scripts =
    read_and_write_succeed_without_contention ∷ read_waits_for_active_writer_to_drop
    ∷ write_waits_for_active_reader_to_drop ∷ lock_method_returns_guard_that_can_mutate_value
    ∷ lock_future_waits_until_reader_releases ∷ lock_guard_blocks_writer_until_dropped
    ∷ multiple_readers_can_hold_the_lock_at_once ∷ writer_waits_for_every_reader
    ∷ readers_are_blocked_while_a_writer_holds_the_lock ∷ second_writer_waits_for_the_first
    ∷ writes_are_visible_to_later_readers ∷ rc_reader_blocks_writers_until_dropped
    ∷ rc_readers_can_be_held_concurrently ∷ rc_and_borrowed_readers_can_be_held_concurrently
    ∷ rc_guards_outlive_the_lock_handle
    ∷ dropping_pending_futures_releases_nothing_and_blocks_nobody
    ∷ waiting_reader_is_woken_when_writer_releases ∷ []

rwlocks_pass : all_pass (passes rwlock_ops deref deref_set (λ x y. x == y) (new 0)) scripts ≡ true
unfolding all_pass passes run act is_ready bool_eq list_eq new rwlock_ops deref deref_set lock_poll
    drop_future new_with listen notify event_poll drop_listener notify_inner notify_count
    notify_loop hand_on usize get insert remove set_value usize_add usize_sub
rwlocks_pass = refl
