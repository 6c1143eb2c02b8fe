-- ===== src/RwLock/Tests.antt =====
-- Tasks that share one `RwLock` of src/lock/rwlock.rs, and the theorems at the states of their run.
use eneste_rs.Prelude.{ℕ, ◌≡◌, ◌<◌, refl, true, some, [], ◌∷◌, arith, is_some, sum_below, usize_add}
use eneste_rs.Event.{
  ready, poll as event_poll, new_with, listen, notify, notify_inner, notify_count, notify_loop,
  usize,
}
use eneste_rs.Event.Map.{get, insert, set_value}
use eneste_rs.Lock.{waiting, idle, lock_poll, drop_future}
use eneste_rs.Lock.Tasks.{trying}
use eneste_rs.Lock.System.{System, Reach, created, after, begins, polls, releases}
use eneste_rs.RwLock.{RwLock, Mode, read, write, new, rwlock_ops, poll, drop_guard}
use eneste_rs.RwLock.Safety.{reading, writer_excludes, drop_guard_total, available_wakes}

abbrev Run : Type 0
Run = (t : System (RwLock ℕ) Mode) × Reach rwlock_ops 2 (new 5) t

-- Task 0 takes a write guard at its first poll.
writer : Run
unfolding new rwlock_ops lock_poll drop_future new_with
writer = (
  _,
  after (after created (begins 0 write (omega arith) refl))
      (polls 0 write idle 10 (omega arith) refl (omega arith) refl),
)

-- Task 1 wants to read, and goes to sleep.
contended : Run
unfolding writer event_poll listen insert get set_value usize_add notify notify_inner notify_count
    notify_loop usize
contended = (
  _,
  after (after writer.1 (begins 1 read (omega arith) refl))
      (polls 1 read idle 11 (omega arith) refl (omega arith) refl),
)

-- Task 0 drops its guard.
released : Run
unfolding contended
released = (_, after contended.1 (releases 0 write (omega arith) refl refl))

-- A run with one reader.
reader : Run
unfolding new rwlock_ops lock_poll drop_future new_with usize_add
reader = (
  _,
  after (after created (begins 0 read (omega arith) refl))
      (polls 0 read idle 10 (omega arith) refl (omega arith) refl),
)

released_wakes_task : released.0.lock.event.woken ≡ 11 ∷ []
unfolding released
released_wakes_task = refl

writer_excludes_example : ◌≡◌ {A = ℕ} 0 0
unfolding contended
writer_excludes_example =
    writer_excludes 2 (omega arith) 5 0 0 write contended.1 (omega arith) (omega arith) refl refl

drop_guard_total_example :
    (reader.0.lock.readers ≡ sum_below reading 2 reader.0.tasks)
    × (is_some (drop_guard read reader.0.lock) ≡ true)
unfolding reader
drop_guard_total_example = drop_guard_total 2 (omega arith) 5 0 read reader.1 (omega arith) refl

available_wakes_example :
    (j : ℕ) × (m : Mode) × (k : ℕ) × (l : RwLock ℕ) × (j < 2)
    × (released.0.tasks j ≡ trying m (waiting k))
    × (poll 3 m released.0.lock (waiting k) 12 ≡ some (l, idle, ready tt))
unfolding released
available_wakes_example =
    available_wakes 2 (omega arith) 5 12 1 0 read released.1 (omega arith) refl refl
