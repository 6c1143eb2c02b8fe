-- ===== src/PollLock.antt =====
-- src/poll_lock.rs: `AsyncPollMutex`, a mutex that keeps its own lock future between polls. The mutex is
-- shared with the futures that `lock` hands out, and passed from call to call.
pub mod Total
mod Tests
use eneste_rs.Prelude.{ℕ, zero, suc, Option, none, some}
use eneste_rs.Event.{Poll, ready, pending, Waker}
use eneste_rs.Lock.{LockState, idle, drop_future}
use eneste_rs.Mutex
use eneste_rs.Mutex.{AsyncMutex, mutex_ops}

-- `AsyncPollMutexState`
pub data PollState : Type 0 where
  unlocking : LockState → PollState
  locked : PollState

pub record AsyncPollMutex (T : Type 0) : Type 0 where
  pub value : AsyncMutex T
  pub state : PollState

module _ {T : Type 0} where
  unfoldable pub new : T → AsyncPollMutex T
  new value = record { value = Mutex.new value; state = locked }

  -- `AsyncPollMutex::lock`: a future that has not been polled.
  unfoldable pub lock : AsyncPollMutex T → LockState
  lock p = idle

  -- `AsyncPollMutex::poll_lock`: `ready` hands out a guard, and `none` is a panic of the lock future or
  -- the end of the fuel. A lock future is polled with fuel 3.
  unfoldable pub poll_lock :
      ℕ → AsyncPollMutex T → Waker → Option (AsyncPollMutex T × Poll (Unit {0}))
  unfolding lock
  poll_lock zero p cx = none
  poll_lock (suc fuel) p cx =
      let again = poll_lock fuel (record p { state = unlocking (lock p) }) cx in
      elim p.state [
        | unlocking future ↦ elim (Mutex.poll 3 p.value future cx) [
          | none ↦ none
          | some (m, left, pending) ↦ some (record { value = m; state = unlocking left }, pending)
          | some (m, left, ready guard) ↦
              some (record { value = drop_future mutex_ops m left; state = locked }, ready guard)
        ]
        | locked ↦ again
      ]
