-- ===== src/RwLock.antt =====
-- src/lock/rwlock.rs: `RwLock`. The four lock futures (`read`, `write`, and their `Rc` twins) poll by
-- the same code, `lock_poll` of `Lock` at `rwlock_ops` and a mode.
pub mod Safety
mod Stalled
mod Tests
use eneste_rs.Prelude.{
  ℕ, ltb, ◌==◌, ◌&&◌, if◌then◌else◌, Bool, true, false, not, Option, none, some, usize_add,
  usize_sub,
}
use eneste_rs.Event.{Inner, Poll, Waker, new_with, notify, usize}
use eneste_rs.Lock.{LockState, LockOps, lock_poll}

-- `RwLockInner`
pub record RwLock (T : Type 0) : Type 0 where
  pub value : T
  pub event : Inner (Unit {0})
  pub readers : ℕ
  pub locked : Bool

-- The guards: `RwLockReadGuard` and `RwLockWriteGuard`, and their `Rc` twins.
pub data Mode : Type 0 where
  read write : Mode

module _ {T : Type 0} where
  unfoldable pub new : T → RwLock T
  new value = record { value = value; event = new_with; readers = 0; locked = false }

  unfoldable pub can_read : RwLock T → Bool
  can_read r = not r.locked

  unfoldable pub can_write : RwLock T → Bool
  can_write r = not r.locked && (r.readers == 0)

  unfoldable pub increment_readers : RwLock T → RwLock T
  increment_readers r = record r {
    readers = usize_add r.readers 1;
    event = notify r.event (usize 1);
  }

  -- `none` is the panic of the `assert!`.
  unfoldable pub decrement_readers : RwLock T → Option (RwLock T)
  decrement_readers r =
      if ltb 0 r.readers
      then some (record r { readers = usize_sub r.readers 1; event = notify r.event (usize 1) })
      else none

  unfoldable pub lock : RwLock T → RwLock T
  lock r = record r { locked = true; event = notify r.event (usize 1) }

  unfoldable pub unlock : RwLock T → RwLock T
  unlock r = record r { locked = false; event = notify r.event (usize 1) }

  -- `Deref` of the guards, and `DerefMut` of the write guards
  unfoldable pub deref : RwLock T → T
  deref r = r.value

  unfoldable pub deref_set : RwLock T → T → RwLock T
  deref_set r v = record r { value = v }

  -- The test, the taking and the drop, by the mode of the guard
  unfoldable pub can_take : Mode → RwLock T → Bool
  unfolding can_read can_write
  can_take read r = can_read r
  can_take write r = can_write r

  unfoldable pub take : Mode → RwLock T → RwLock T
  unfolding increment_readers lock
  take read r = increment_readers r
  take write r = lock r

  unfoldable pub drop_guard : Mode → RwLock T → Option (RwLock T)
  unfolding decrement_readers unlock
  drop_guard read r = decrement_readers r
  drop_guard write r = some (unlock r)

  unfoldable pub rwlock_ops : LockOps (RwLock T) Mode
  unfolding can_take take drop_guard can_write
  rwlock_ops = record {
    event = λ r. r.event;
    with_event = λ r e. record r { event = e };
    free = can_take;
    acquire = take;
    release = drop_guard;
    available = can_write;
  }

  -- `poll` of `ReadLockFuture`, `WriteLockFuture` and their `Rc` twins
  unfoldable pub poll :
      ℕ → Mode → RwLock T → LockState → Waker → Option (RwLock T × LockState × Poll (Unit {0}))
  unfolding lock_poll rwlock_ops
  poll fuel mode r st cx = lock_poll rwlock_ops fuel mode r st cx
