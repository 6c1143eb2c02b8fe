-- ===== src/RwLock/Stalled.antt =====
-- A run of src/lock/rwlock.rs in which a task that waits to read sleeps on while reading is allowed.
use eneste_rs.Prelude.{ℕ, ◌≡◌, refl, true, some, arith, usize_add, [], ◌∷◌}
use eneste_rs.Event.{
  poll as event_poll, new_with, listen, notify, notify_inner, notify_count, notify_loop, usize,
  drop_listener,
}
use eneste_rs.Event.Map.{get, insert, set_value, remove}
use eneste_rs.Event.Listener.{waiting_entry}
use eneste_rs.Lock.{waiting, idle, lock_poll, drop_future}
use eneste_rs.Lock.Tasks.{trying, holding}
use eneste_rs.Lock.System.{System, Reach, created, after, begins, polls, releases}
use eneste_rs.RwLock.{RwLock, Mode, read, write, new, rwlock_ops, can_read}

abbrev Run : Type 0
Run = (t : System (RwLock ℕ) Mode) × Reach rwlock_ops 4 (new 5) t

-- Task 0 writes; task 1 waits to read, task 2 to write, and task 3 to read.
crowded : Run
unfolding new rwlock_ops lock_poll drop_future new_with event_poll listen insert get set_value
    usize_add notify notify_inner notify_count notify_loop usize
crowded = (
  _,
  after
      (after
        (after
          (after
            (after
              (after
                (after (after created (begins 0 write (omega arith) refl))
                  (polls 0 write idle 10 (omega arith) refl (omega arith) refl))
                (begins 1 read (omega arith) refl))
              (polls 1 read idle 11 (omega arith) refl (omega arith) refl))
            (begins 2 write (omega arith) refl))
          (polls 2 write idle 12 (omega arith) refl (omega arith) refl))
        (begins 3 read (omega arith) refl))
      (polls 3 read idle 13 (omega arith) refl (omega arith) refl),
)

-- Task 0 drops its guard, which notifies task 1. Task 1 takes its read guard, which notifies task 2. Task
-- 2 cannot write yet, and sleeps again without passing the notification on.
stalled : Run
unfolding crowded drop_listener remove
stalled = (
  _,
  after
      (after (after crowded.1 (releases 0 write (omega arith) refl refl))
        (polls 1 read (waiting 0) 11 (omega arith) refl (omega arith) refl))
      (polls 2 write (waiting 1) 12 (omega arith) refl (omega arith) refl),
)

-- Task 1 reads, reading is allowed, and task 3 waits to read: it was not notified, and nobody else was.
reader_left_asleep :
    (stalled.0.tasks 1 ≡ holding read)
    × (can_read stalled.0.lock ≡ true)
    × (stalled.0.tasks 3 ≡ trying read (waiting 2))
    × (get 2 stalled.0.lock.event.listeners ≡ some (waiting_entry (some 13)))
    × (stalled.0.lock.event.notified ≡ 0)
    × (stalled.0.lock.event.woken ≡ 11 ∷ 12 ∷ [])
unfolding stalled can_read
reader_left_asleep = (refl, refl, refl, refl, refl, refl)
