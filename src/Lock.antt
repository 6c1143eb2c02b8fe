-- ===== src/Lock.antt =====
-- The future loop that src/lock/mutex.rs and src/lock/rwlock.rs write once for each kind of lock:
-- try to take the lock, and sleep on its event until a notification comes.
pub mod Loop
pub mod Tasks
pub mod System
pub mod Invariant
pub mod Wakeup
pub mod Rule
use eneste_rs.Prelude.{ℕ, zero, suc, Bool, true, false, Option, none, some, if◌then◌else◌, ◌≡◌}
use eneste_rs.Event.{Inner, Poll, ready, pending, Waker, listen, poll, drop_listener, notify, usize}

-- `LockState`
pub data LockState : Type 0 where
  waiting : ℕ → LockState
  idle : LockState

-- What a lock's futures and guards call. `Mode` tells its kinds of guard apart, and `available` says
-- that no guard is out. `release` is `none` where the source panics.
pub record LockOps (S Mode : Type 0) : Type 0 where
  pub event : S → Inner (Unit {0})
  pub with_event : S → Inner (Unit {0}) → S
  pub free : Mode → S → Bool
  pub acquire : Mode → S → S
  pub release : Mode → S → Option S
  pub available : S → Bool

module _ {S Mode : Type 0} (ops : LockOps S Mode) where
  open ops use {event, with_event, free, acquire, release, available}

  -- The laws that the proofs about all locks rest on.
  pub record LockLaws : Type 0 where
    pub event-with_event : (s : S) (e : Inner (Unit {0})) → event (with_event s e) ≡ e
    pub with_event-with_event :
        (s : S) (e e' : Inner (Unit {0})) → with_event (with_event s e) e' ≡ with_event s e'
    pub free-with_event :
        (m : Mode) (s : S) (e : Inner (Unit {0})) → free m (with_event s e) ≡ free m s
    pub available-with_event :
        (s : S) (e : Inner (Unit {0})) → available (with_event s e) ≡ available s
    pub event-acquire : (m : Mode) (s : S) → event (acquire m s) ≡ notify (event s) (usize 1)
    pub event-release :
        (m : Mode) (s t : S) → release m s ≡ some t → event t ≡ notify (event s) (usize 1)
    pub free_of_available : (m : Mode) (s : S) → available s ≡ true → free m s ≡ true

  -- `poll` of the lock futures; a loop on fuel. `none` is a panic of the listener or the end of the
  -- fuel, and `ready` hands out a guard.
  unfoldable pub lock_poll :
      ℕ → Mode → S → LockState → Waker → Option (S × LockState × Poll (Unit {0}))
  lock_poll zero m s st cx = none
  lock_poll (suc fuel) m s (waiting id) cx = elim (poll (event s) id cx) [
    | none ↦ none
    | some (e, ready u) ↦ lock_poll fuel m (with_event s (drop_listener e id)) idle cx
    | some (e, pending) ↦ some (with_event s e, waiting id, pending)
  ]
  lock_poll (suc fuel) m s idle cx =
      let (e, id) = listen (event s) in
      let again = lock_poll fuel m (with_event s e) (waiting id) cx in
      if free m s then some (acquire m s, idle, ready tt) else again

  -- The drop of a lock future drops its listener.
  unfoldable pub drop_future : S → LockState → S
  drop_future s (waiting id) = with_event s (drop_listener (event s) id)
  drop_future s idle = s
