-- ===== src/Lock/Loop.antt =====
-- The loop of the lock futures (src/lock/mutex.rs, src/lock/rwlock.rs) without its rounds.
use eneste_rs.Prelude.{
  ℕ, suc, ◌+◌, ◌<◌, ◌≡◌, ◌∙◌, refl, Option, some, arith, if◌then◌else◌, usize_mod,
}
use eneste_rs.Event.Map.{get}
use eneste_rs.Event.{Poll, ready, pending, Waker}
use eneste_rs.Event.Invariant.{Inv, listen_lem, listened}
use eneste_rs.Event.Listener.{
  waiting_entry, notified_entry, consumed, consumed-Inv, polled, parked, poll-waiting,
  poll-notified, poll-listened, drop_listener-taken,
}
use eneste_rs.Lock.{LockState, waiting, idle, LockOps, LockLaws, lock_poll}

module _ {S Mode : Type 0} (ops : LockOps S Mode) (laws : LockLaws ops) where
  open ops use {event, with_event, free, acquire}

  -- An attempt takes a free lock, and sleeps on the event of any other.
  abbrev pub attempt : Mode → S → Waker → S × LockState × Poll (Unit {0})
  attempt m s cx =
      if free m s
      then (acquire m s, idle, ready tt)
      else (with_event s (parked (event s) cx), waiting (event s).next_id, pending)

  pub lock_poll-idle :
      (fuel : ℕ) (m : Mode) (s : S) (cx : Waker)
      → Inv (event s)
      → (event s).next_id + 1 < usize_mod
      → lock_poll ops (suc (suc fuel)) m s idle cx ≡ some (attempt m s cx)
  unfolding lock_poll
  lock_poll-idle fuel m s cx v h = ground (
    arith,
    listen_lem (event s) v h,
    poll-listened (event s) cx v,
    laws.event-with_event s (listened (event s)),
    laws.with_event-with_event s (listened (event s)) (parked (event s) cx),
  )

  pub lock_poll-waiting :
      (fuel : ℕ) (m : Mode) (s : S) (id : ℕ) (cx : Waker) (w : Option Waker)
      → get id (event s).listeners ≡ some (waiting_entry w)
      → lock_poll ops (suc fuel) m s (waiting id) cx
        ≡ some (with_event s (polled (event s) id cx), waiting id, pending)
  unfolding lock_poll
  lock_poll-waiting fuel m s id cx w g = rw (poll-waiting (event s) id cx w g, lock_poll) refl

  lock_poll-taken :
      (fuel : ℕ) (m : Mode) (s : S) (id : ℕ) (cx : Waker) (w : Option Waker)
      → get id (event s).listeners ≡ some (notified_entry w tt)
      → lock_poll ops (suc fuel) m s (waiting id) cx
        ≡ lock_poll ops fuel m (with_event s (consumed (event s) id)) idle cx
  unfolding lock_poll
  lock_poll-taken fuel m s id cx w g =
      rw (poll-notified (event s) id cx w tt g, lock_poll)
        (rw (drop_listener-taken (event s) id w tt g) refl)

  -- Three rounds are enough for a future whose listener was notified.
  pub lock_poll-notified :
      (fuel : ℕ) (m : Mode) (s : S) (id : ℕ) (cx : Waker) (w : Option Waker)
      → Inv (event s)
      → (event s).next_id + 1 < usize_mod
      → get id (event s).listeners ≡ some (notified_entry w tt)
      → lock_poll ops (suc (suc (suc fuel))) m s (waiting id) cx
        ≡ some (attempt m (with_event s (consumed (event s) id)) cx)
  lock_poll-notified fuel m s id cx w v h g =
      let c = consumed (event s) id in
      let e : event (with_event s c) ≡ c = laws.event-with_event s c in
      lock_poll-taken (suc (suc fuel)) m s id cx w g
      ∙ lock_poll-idle fuel m (with_event s c) cx (rw e (consumed-Inv (event s) id w tt v g))
          (rw e h)
