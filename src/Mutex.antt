-- ===== src/Mutex.antt =====
-- src/lock/mutex.rs: `AsyncMutex`. `LockFuture` borrows the mutex and `RcLockFuture` shares it by `Rc`;
-- their polls are the same code, `lock_poll` of `Lock` at `mutex_ops`.
pub mod Safety
mod Tests
use eneste_rs.Prelude.{ℕ, ◌≡◌, refl, Bool, true, false, not, Option, some}
use eneste_rs.Event.{Inner, Poll, Waker, new_with, notify, usize}
use eneste_rs.Lock.{LockState, idle, LockOps, LockLaws, lock_poll}

-- `AsyncMutexInner`
pub record AsyncMutex (T : Type 0) : Type 0 where
  pub value : T
  pub event : Inner (Unit {0})
  pub locked : Bool

module _ {T : Type 0} where
  unfoldable pub new : T → AsyncMutex T
  new value = record { value = value; event = new_with; locked = false }

  unfoldable pub is_locked : AsyncMutex T → Bool
  is_locked m = m.locked

  -- `AsyncMutexInner::lock` and `unlock`: both notify one waiter.
  unfoldable pub lock : AsyncMutex T → AsyncMutex T
  lock m = record m { locked = true; event = notify m.event (usize 1) }

  unfoldable pub unlock : AsyncMutex T → AsyncMutex T
  unlock m = record m { locked = false; event = notify m.event (usize 1) }

  -- `Deref` and `DerefMut` of the guards
  unfoldable pub deref : AsyncMutex T → T
  deref m = m.value

  unfoldable pub deref_set : AsyncMutex T → T → AsyncMutex T
  deref_set m v = record m { value = v }

  -- The drop of a guard
  unfoldable pub drop_guard : AsyncMutex T → AsyncMutex T
  unfolding unlock
  drop_guard m = unlock m

  unfoldable pub mutex_ops : LockOps (AsyncMutex T) (Unit {0})
  unfolding is_locked lock drop_guard
  mutex_ops = record {
    event = λ m. m.event;
    with_event = λ m e. record m { event = e };
    free = λ u m. not (is_locked m);
    acquire = λ u m. lock m;
    release = λ u m. some (drop_guard m);
    available = λ m. not (is_locked m);
  }

  -- `poll` of `LockFuture` and `RcLockFuture`
  unfoldable pub poll :
      ℕ → AsyncMutex T → LockState → Waker → Option (AsyncMutex T × LockState × Poll (Unit {0}))
  unfolding lock_poll mutex_ops
  poll fuel m st cx = lock_poll mutex_ops fuel tt m st cx
