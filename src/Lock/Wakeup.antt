-- ===== src/Lock/Wakeup.antt =====
-- No lost wake-up for the locks of src/lock: while a lock is available and a task sleeps on it, some
-- sleeping task has been notified, and takes the lock when it is polled.
use eneste_rs.Prelude.{
  ℕ, ◌+◌, ◌≤◌, ◌<◌, ◌≡◌, ◌∙◌, refl, sym, true, some, arith, Bool-cases, Option-cases, inl, inr,
  subst, ap, eq_of_some, usize_mod, is_some,
}
use eneste_rs.Event.Map.{get}
use eneste_rs.Event.{Inner, Poll, ready, Waker, usize, drop_listener, new_with}
use eneste_rs.Event.Invariant.{Inv}
use eneste_rs.Event.Listener.{entry_cases, consumed, consumed-Inv, polled, parked}
use eneste_rs.Event.Awake.{
  Awake, notify-Awake, drop_listener-Awake, polled-Awake, registered_pos, find_notified,
}
use eneste_rs.Event.Sweep.{notified_entries}
use eneste_rs.Lock.{LockState, waiting, idle, LockOps, LockLaws, lock_poll, drop_future}
use eneste_rs.Lock.Loop.{attempt, lock_poll-idle, lock_poll-waiting, lock_poll-notified}
use eneste_rs.Lock.Tasks.{Task, outside, trying, holding, listener_of}
use eneste_rs.Lock.System.{
  System, Step, begins, polls, cancels, releases, Reach, created, after, polled_lock,
}
use eneste_rs.Lock.Invariant.{Good, Reach-Good}

module _ {S Mode : Type 0} (ops : LockOps S Mode) (laws : LockLaws ops) (n : ℕ) where
  open ops use {event, with_event, free, acquire, release, available}

  abbrev pub AwakeIfAvailable : S → Type 0
  AwakeIfAvailable s = available s ≡ true → Awake (event s)

  with_event-Awake :
      (s : S) (e : Inner (Unit {0}))
      → (available s ≡ true → Awake e)
      → AwakeIfAvailable (with_event s e)
  with_event-Awake s e h p =
      subst Awake (sym (laws.event-with_event s e)) (h (sym (laws.available-with_event s e) ∙ p))

  abbrev AwakePoll : S × LockState × Poll (Unit {0}) → Type 0
  AwakePoll (l, st, r) = AwakeIfAvailable (polled_lock ops l st r)

  -- Taking the lock notifies one more waiter; a lock that is not free is not available.
  attempt-Awake :
      (m : Mode) (s : S) (cx : Waker) → Inv (event s) → AwakePoll (attempt ops laws m s cx)
  unfolding drop_future usize
  attempt-Awake m s cx v = elim (Bool-cases (free m s)) [
    | inl q ↦ rw q (λ p.
        subst Awake (sym (laws.event-acquire m s))
          (notify-Awake (event s) (usize 1) v (omega arith) (omega arith)))
    | inr q ↦ rw q (
        with_event-Awake s (parked (event s) cx)
          (λ p. ground (arith, laws.free_of_available m s p)))
  ]

  poll-Awake :
      (m : Mode) (s : S) (st : LockState) (cx : Waker) (x : S × LockState × Poll (Unit {0}))
      → Inv (event s)
      → (event s).next_id + 1 < usize_mod
      → ((id : ℕ) → st ≡ waiting id → is_some (get id (event s).listeners) ≡ true)
      → AwakeIfAvailable s
      → lock_poll ops 3 m s st cx ≡ some x
      → AwakePoll x
  poll-Awake m s idle cx x v h k a p =
      subst AwakePoll (eq_of_some (sym (lock_poll-idle ops laws 1 m s cx v h) ∙ p))
        (attempt-Awake m s cx v)
  poll-Awake m s (waiting id) cx x v h k a p = elim (Option-cases (get id (event s).listeners)) [
    | inl q ↦ ground (arith, k id refl)
    | inr (entry, q) ↦ elim (entry_cases (event s) id q) [
      | inl (w, q') ↦
          subst AwakePoll (eq_of_some (sym (lock_poll-waiting ops laws 2 m s id cx w q') ∙ p))
            (with_event-Awake s (polled (event s) id cx) (λ f. polled-Awake (event s) id cx (a f)))
      | inr (w, tag, q') ↦
          subst AwakePoll (eq_of_some (sym (lock_poll-notified ops laws 0 m s id cx w v h q') ∙ p))
            (attempt-Awake m (with_event s (consumed (event s) id)) cx (
              rw (laws.event-with_event s (consumed (event s) id))
                (consumed-Inv (event s) id w tag v q')))
    ]
  ]

  drop-Awake :
      (s : S) (st : LockState)
      → Inv (event s)
      → AwakeIfAvailable s
      → AwakeIfAvailable (drop_future ops s st)
  unfolding drop_future
  drop-Awake s idle v a = a
  drop-Awake s (waiting id) v a =
      with_event-Awake s (drop_listener (event s) id)
        (λ f. drop_listener-Awake (event s) id v (a f))

  Step-Awake :
      {s t : System S Mode}
      → Step ops n s t
      → Good ops laws n s.lock s.tasks
      → AwakeIfAvailable s.lock
      → AwakeIfAvailable t.lock
  unfolding usize
  Step-Awake (begins i m lt e) g a = a
  Step-Awake {s} (polls i m st cx {l} {st'} {r} lt e h p) g a =
      poll-Awake m s.lock st cx (l, st', r) g.event_inv h
        (λ id q. g.attached.known i id (ap listener_of e ∙ ap (λ x. listener_of (trying m x)) q)) a
        p
  Step-Awake {s} (cancels i m st lt e) g a = drop-Awake s.lock st g.event_inv a
  Step-Awake {s} (releases i m {l} lt e p) g a = λ f.
      subst Awake (sym (laws.event-release m s.lock l p))
        (notify-Awake (event s.lock) (usize 1) g.event_inv (omega arith) (omega arith))

  Reach-Awake :
      {s : S} {t : System S Mode} → event s ≡ new_with → Reach ops n s t → AwakeIfAvailable t.lock
  unfolding new_with
  Reach-Awake {s} e created = λ f. rw e (omega arith)
  Reach-Awake e (after r st) = Step-Awake st (Reach-Good ops laws n e r) (Reach-Awake e r)

  sleeping :
      {t : Task Mode} {id : ℕ} → listener_of t ≡ some id → (m : Mode) × (t ≡ trying m (waiting id))
  sleeping {t = outside} h = absurd (cc)
  sleeping {t = trying m (waiting id)} h = (m, cc)
  sleeping {t = trying m idle} h = absurd (cc)
  sleeping {t = holding m} h = absurd (cc)

  -- If a reachable lock is available while some task sleeps on its event, then a sleeping task `j` has
  -- been notified, and its next poll, by whatever waker, returns a guard: no wake-up is lost, also when
  -- notified futures are dropped.
  pub no_lost_wakeup :
      {s : S} {t : System S Mode} (cx : Waker) (i id : ℕ)
      → event s ≡ new_with
      → Reach ops n s t
      → (event t.lock).next_id + 1 < usize_mod
      → available t.lock ≡ true
      → listener_of (t.tasks i) ≡ some id
      → (j : ℕ) × (m : Mode) × (k : ℕ) × (l : S) × (j < n)
        × (t.tasks j ≡ trying m (waiting k))
        × (lock_poll ops 3 m t.lock (waiting k) cx ≡ some (l, idle, ready tt))
  no_lost_wakeup {t} cx i id e r h av sl =
      let g = Reach-Good ops laws n e r in
      let v = g.event_inv in
      let here = g.attached.known i id sl in
      let some_notified : 1 ≤ notified_entries (event t.lock).listeners =
        omega (arith, Reach-Awake e r av, v.counted, registered_pos (event t.lock) id here) in
      let (k, w, tag, q) =
        find_notified 0 (event t.lock).listeners (event t.lock).next_id v.ordered some_notified in
      let (j, lt, own) = g.attached.owned k (rw q refl) in
      let (m, tr) = sleeping own in
      let s' = with_event t.lock (consumed (event t.lock) k) in
      let is_free : free m s' ≡ true =
        laws.free-with_event m t.lock (consumed (event t.lock) k)
        ∙ laws.free_of_available m t.lock av in
      (
        j,
        m,
        k,
        acquire m s',
        lt,
        tr,
        lock_poll-notified ops laws 0 m t.lock k cx w v h q ∙ rw is_free refl,
      )
