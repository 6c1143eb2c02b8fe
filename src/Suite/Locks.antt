-- ===== src/Suite/Locks.antt =====
-- How the unit tests of src/lock/*.rs run: calls on one lock, its futures and its guards.
pub mod Mutexes
pub mod RwLocks
use eneste_rs.Prelude.{ℕ, Bool, true, false, ◌&&◌, List, [], ◌∷◌, Option, none, some, ◌==◌, update}
use eneste_rs.Event.{Inner, Poll, ready, pending, Waker}
use eneste_rs.Lock.{LockState, idle, LockOps, lock_poll, drop_future}
use eneste_rs.Suite.{run, bool_eq, list_eq}

-- A future is named by a number; it is created at its first poll, which says whether it is ready.
-- `takes` is `block_on` of a new future.
pub data Act (Mode T : Type 0) : Type 0 where
  takes : Mode → Act Mode T
  polls : Mode → ℕ → Waker → Bool → Act Mode T
  drops_future : ℕ → Act Mode T
  drops_guard : Mode → Act Mode T
  reads : T → Act Mode T
  writes : T → Act Mode T
  woken : List Waker → Act Mode T

pub record Scene (S : Type 0) : Type 0 where
  pub lock : S
  pub futures : ℕ → LockState

module _ {S Mode T : Type 0} (ops : LockOps S Mode) (value : S → T) (set_value : S → T → S)
    (equal : T → T → Bool) where
  unfoldable pub is_ready : Poll (Unit {0}) → Bool
  is_ready (ready u) = true
  is_ready pending = false

  -- One call: the state after it, and whether its outcome is the asserted one. A panic fails.
  unfoldable pub act : Act Mode T → Scene S → Scene S × Bool
  act (takes m) x = elim (lock_poll ops 3 m x.lock idle 0) [
    | none ↦ (x, false)
    | some (s, st, r) ↦ (record x { lock = s }, is_ready r)
  ]
  act (polls m k cx b) x = elim (lock_poll ops 3 m x.lock (x.futures k) cx) [
    | none ↦ (x, false)
    | some (s, st, r) ↦
        (record { lock = s; futures = update x.futures k st }, bool_eq (is_ready r) b)
  ]
  act (drops_future k) x = (
    record { lock = drop_future ops x.lock (x.futures k); futures = update x.futures k idle },
    true,
  )
  act (drops_guard m) x = elim (ops.release m x.lock) [
    | none ↦ (x, false)
    | some s ↦ (record x { lock = s }, true)
  ]
  act (reads v) x = (x, equal (value x.lock) v)
  act (writes v) x = (record x { lock = set_value x.lock v }, true)
  act (woken ws) x = (x, list_eq (λ a b. a == b) (ops.event x.lock).woken ws)

  unfoldable pub passes : S → List (Act Mode T) → Bool
  passes s script = run act script (record { lock = s; futures = λ k. idle })
