-- ===== src/PollLock/Total.antt =====
-- `AsyncPollMutex::poll_lock` (src/poll_lock.rs) always comes back, and what it leaves.
use eneste_rs.Prelude.{
  ℕ, suc, ◌+◌, ◌<◌, ◌≡◌, ◌∙◌, refl, true, false, Option, some, arith, inl, inr, usize_mod,
  Bool-cases, ==-self,
}
use eneste_rs.Event.Map.{get, get_above, get-append, get-set_value}
use eneste_rs.Event.{ListenerEntry, Inner, Poll, ready, pending, Waker, usize}
use eneste_rs.Event.Invariant.{Inv, notify-Inv}
use eneste_rs.Event.Listener.{
  waiting_entry, entry_cases, consumed, consumed-Inv, polled, polled-Inv, parked, parked-Inv,
}
use eneste_rs.Lock.{LockState, waiting, idle, drop_future}
use eneste_rs.Lock.Loop.{attempt, lock_poll-idle, lock_poll-waiting, lock_poll-notified}
use eneste_rs.Mutex
use eneste_rs.Mutex.{AsyncMutex, mutex_ops}
use eneste_rs.Mutex.Safety.{mutex_laws}
use eneste_rs.PollLock.{PollState, unlocking, locked, AsyncPollMutex, poll_lock}

-- The listener of the kept future, if it has one, is registered.
abbrev pub Registered : Inner (Unit {0}) → PollState → Type 0
Registered e locked = Unit
Registered e (unlocking idle) = Unit
Registered e (unlocking (waiting id)) =
    (entry : ListenerEntry (Unit {0})) × (get id e.listeners ≡ some entry)

get-parked :
    (e : Inner (Unit {0})) (cx : Waker)
    → Inv e
    → get e.next_id (parked e cx).listeners ≡ some (waiting_entry (some cx))
get-parked e cx v =
    let w : ListenerEntry (Unit {0}) = waiting_entry (some cx) in
    let g = get_above 0 e.listeners e.next_id e.next_id v.ordered (omega arith) in
    get-append e.next_id e.listeners e.next_id w g ∙ rw (==-self e.next_id) refl

get-polled :
    (e : Inner (Unit {0})) (id : ℕ) (entry : ListenerEntry (Unit {0})) (cx : Waker)
    → get id e.listeners ≡ some entry
    → get id (polled e id cx).listeners ≡ some (waiting_entry (some cx))
get-polled e id entry cx g =
    get-set_value id id (waiting_entry (some cx)) e.listeners g ∙ rw (==-self id) refl

module _ {T : Type 0} where
  pub record Good (p : AsyncPollMutex T) : Type 0 where
    pub event : Inv p.value.event
    pub attached : Registered p.value.event p.state

  -- What a poll from `p` leaves in `k`: a guard of a mutex that was free and is locked now, or a future
  -- that sleeps with the waker of this poll. The contents stay as they are.
  abbrev pub Outcome : Waker → AsyncPollMutex T → AsyncPollMutex T → Poll (Unit {0}) → Type 0
  Outcome cx p k (ready guard) =
      (k.state ≡ locked)
      × (p.value.locked ≡ false)
      × (k.value.locked ≡ true)
      × (k.value.value ≡ p.value.value)
  Outcome cx p k pending =
      (k.value.locked ≡ p.value.locked)
      × (k.value.value ≡ p.value.value)
      × ((id : ℕ) × (k.state ≡ unlocking (waiting id))
          × (get id k.value.event.listeners ≡ some (waiting_entry (some cx))))

  abbrev pub Answers :
      Waker → AsyncPollMutex T → Option (AsyncPollMutex T × Poll (Unit {0})) → Type 0
  Answers cx p result =
      (k : AsyncPollMutex T) × (r : Poll (Unit {0})) × (result ≡ some (k, r))
      × Good k
      × Outcome cx p k r

  -- A poll after which the future has tried to take the mutex `m`.
  attempt-Answers :
      (fuel : ℕ) (p : AsyncPollMutex T) (m : AsyncMutex T) (future : LockState) (cx : Waker)
      → p.state ≡ unlocking future
      → Mutex.poll 3 p.value future cx ≡ some (attempt mutex_ops mutex_laws tt m cx)
      → m.locked ≡ p.value.locked
      → m.value ≡ p.value.value
      → Inv m.event
      → m.event.next_id + 1 < usize_mod
      → Answers cx p (poll_lock (suc fuel) p cx)
  unfolding poll_lock mutex_ops Mutex.is_locked Mutex.lock drop_future usize
  attempt-Answers fuel p m future cx s q l c v h = elim (Bool-cases m.locked) [
    | inl t ↦ (
      record {
        value = record m { event = parked m.event cx };
        state = unlocking (waiting m.event.next_id);
      },
      pending,
      ground (arith, s, q, t),
      record { event = parked-Inv m.event cx v h; attached = (_, get-parked m.event cx v) },
      (l, c, (m.event.next_id, refl, get-parked m.event cx v)),
    )
    | inr t ↦ (
      record { value = Mutex.lock m; state = locked },
      ready tt,
      ground (arith, s, q, t),
      record { event = notify-Inv m.event (usize 1) v (omega arith); attached = tt },
      (refl, ground (arith, l, t), refl, c),
    )
  ]

  idle-Answers :
      (fuel : ℕ) (p : AsyncPollMutex T) (cx : Waker)
      → p.state ≡ unlocking idle
      → Inv p.value.event
      → p.value.event.next_id + 1 < usize_mod
      → Answers cx p (poll_lock (suc fuel) p cx)
  unfolding Mutex.poll mutex_ops
  idle-Answers fuel p cx s v h =
      attempt-Answers fuel p p.value idle cx s
        (lock_poll-idle mutex_ops mutex_laws 1 tt p.value cx v h) refl refl v h

  waiting-Answers :
      (fuel id : ℕ) (p : AsyncPollMutex T) (entry : ListenerEntry (Unit {0})) (cx : Waker)
      → p.state ≡ unlocking (waiting id)
      → get id p.value.event.listeners ≡ some entry
      → Inv p.value.event
      → p.value.event.next_id + 1 < usize_mod
      → Answers cx p (poll_lock (suc fuel) p cx)
  unfolding Mutex.poll mutex_ops poll_lock
  waiting-Answers fuel id p entry cx s g v h =
      let e = p.value.event in
      elim (entry_cases e id g) [
        | inl (w, g') ↦ (
          record {
            value = record p.value { event = polled e id cx };
            state = unlocking (waiting id);
          },
          pending,
          ground (arith, s, lock_poll-waiting mutex_ops mutex_laws 2 tt p.value id cx w g'),
          record { event = polled-Inv e id cx w v g'; attached = (_, get-polled e id entry cx g) },
          (refl, refl, (id, refl, get-polled e id entry cx g)),
        )
        | inr (w, tag, g') ↦
            attempt-Answers fuel p (record p.value { event = consumed e id }) (waiting id) cx s
              (lock_poll-notified mutex_ops mutex_laws 0 tt p.value id cx w v h g') refl refl
              (consumed-Inv e id w tag v g') h
      ]

  locked-step :
      (fuel : ℕ) (p : AsyncPollMutex T) (cx : Waker)
      → p.state ≡ locked
      → poll_lock (suc fuel) p cx ≡ poll_lock fuel (record p { state = unlocking idle }) cx
  unfolding poll_lock
  locked-step fuel p cx e = rw (e, poll_lock) refl

  locked-Answers :
      (fuel : ℕ) (p : AsyncPollMutex T) (cx : Waker)
      → p.state ≡ locked
      → Inv p.value.event
      → p.value.event.next_id + 1 < usize_mod
      → Answers cx p (poll_lock (suc (suc fuel)) p cx)
  locked-Answers fuel p cx e v h =
      let r = idle-Answers fuel (record p { state = unlocking idle }) cx refl v h in
      (r.0, r.1, locked-step (suc fuel) p cx e ∙ r.2, r.3, r.4)

  -- Two rounds of the loop are enough: on a well-formed mutex with a listener id to spare, a poll never
  -- panics and never runs on. It hands out a guard only if the mutex was free, and then the mutex is
  -- locked; otherwise it keeps a future that sleeps with this poll's waker, and leaves the mutex and its
  -- contents as they are.
  pub poll_lock-Answers :
      (fuel : ℕ) (p : AsyncPollMutex T) (cx : Waker)
      → Good p
      → p.value.event.next_id + 1 < usize_mod
      → Answers cx p (poll_lock (suc (suc fuel)) p cx)
  poll_lock-Answers fuel p cx g h = from p.state refl g.attached
    where
      from :
          (s : PollState)
          → p.state ≡ s
          → Registered p.value.event s
          → Answers cx p (poll_lock (suc (suc fuel)) p cx)
      from locked e a = locked-Answers fuel p cx e g.event h
      from (unlocking idle) e a = idle-Answers (suc fuel) p cx e g.event h
      from (unlocking (waiting id)) e a = waiting-Answers (suc fuel) id p a.0 cx e a.1 g.event h
