-- ===== src/Mutex/Tests.antt =====
-- Two tasks and one `AsyncMutex` of src/lock/mutex.rs: a run with a contended lock, and the theorems at
-- its states.
use eneste_rs.Prelude.{ℕ, ◌≡◌, ◌<◌, refl, true, some, [], ◌∷◌, arith, usize_add}
use eneste_rs.Event.{
  ready, poll as event_poll, new_with, listen, notify, notify_inner, notify_count, notify_loop,
  usize,
}
use eneste_rs.Event.Map.{get, insert, set_value}
use eneste_rs.Lock.{waiting, idle, lock_poll, drop_future}
use eneste_rs.Lock.Tasks.{trying}
use eneste_rs.Lock.System.{System, Reach, created, after, begins, polls, releases}
use eneste_rs.Mutex.{AsyncMutex, new, is_locked, lock, unlock, mutex_ops, poll}
use eneste_rs.Mutex.Safety.{mutual_exclusion, unlocked_wakes}

abbrev Run : Type 0
Run = (t : System (AsyncMutex ℕ) (Unit {0})) × Reach mutex_ops 2 (new 5) t

-- Task 0 takes the mutex at its first poll.
held : Run
unfolding new mutex_ops lock_poll drop_future is_locked lock new_with
held = (
  _,
  after (after created (begins 0 tt (omega arith) refl))
      (polls 0 tt idle 10 (omega arith) refl (omega arith) refl),
)

-- Task 1 finds it taken and goes to sleep.
contended : Run
unfolding held event_poll listen insert get set_value usize_add notify notify_inner notify_count
    notify_loop usize
contended = (
  _,
  after (after held.1 (begins 1 tt (omega arith) refl))
      (polls 1 tt idle 11 (omega arith) refl (omega arith) refl),
)

-- Task 0 drops its guard.
released : Run
unfolding contended
released = (_, after contended.1 (releases 0 tt (omega arith) refl refl))

released_wakes_task : released.0.lock.event.woken ≡ 11 ∷ []
unfolding released unlock
released_wakes_task = refl

mutual_exclusion_example : (◌≡◌ {A = ℕ} 0 0) × (is_locked contended.0.lock ≡ true)
unfolding contended
mutual_exclusion_example =
    mutual_exclusion 2 5 0 0 contended.1 (omega arith) (omega arith) refl refl

unlocked_wakes_example :
    (j : ℕ) × (k : ℕ) × (l : AsyncMutex ℕ) × (j < 2)
    × (released.0.tasks j ≡ trying tt (waiting k))
    × (poll 3 released.0.lock (waiting k) 12 ≡ some (l, idle, ready tt))
unfolding released unlock
unlocked_wakes_example = unlocked_wakes 2 5 12 1 0 released.1 (omega arith) refl refl
