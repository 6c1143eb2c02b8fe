-- ===== src/Lock/Invariant.antt =====
-- Every reachable state of a lock's system is well formed: its event, and the tasks on its listeners.
use eneste_rs.Prelude.{
  ℕ, ◌+◌, ◌<◌, ◌≡◌, ◌∙◌, refl, sym, Option, none, some, arith, Bool-cases, Option-cases, inl, inr,
  subst, ap, eq_of_some, ==-self, update, update-update, usize_mod,
}
use eneste_rs.Event.Map.{get}
use eneste_rs.Event.{Inner, Poll, Waker, notify, usize, drop_listener, new_with}
use eneste_rs.Event.Invariant.{Inv, notify-Inv}
use eneste_rs.Event.Listener.{
  entry_cases, notified_entry, consumed, consumed-Inv, drop_listener-Inv, polled, polled-Inv,
  parked, parked-Inv,
}
use eneste_rs.Event.Reach.{Reach-Inv, created as event_created}
use eneste_rs.Event.Registered.{
  registered, registered-drop_listener, registered-notify, registered-polled, registered-removed,
  registered-parked, registered-next_id,
}
use eneste_rs.Lock.{LockState, waiting, idle, LockOps, LockLaws, lock_poll, drop_future}
use eneste_rs.Lock.Loop.{attempt, lock_poll-idle, lock_poll-waiting, lock_poll-notified}
use eneste_rs.Lock.Tasks.{
  Task, outside, trying, listener_of, Attached, Attached-same, Attached-leave, Attached-enter,
}
use eneste_rs.Lock.System.{
  System, Step, begins, polls, cancels, releases, Reach, created, after, polled_task, polled_lock,
}

module _ {S Mode : Type 0} (ops : LockOps S Mode) (laws : LockLaws ops) (n : ℕ) where
  open ops use {event, with_event, free, acquire, release}

  pub record Good (s : S) (tasks : ℕ → Task Mode) : Type 0 where
    pub event_inv : Inv (event s)
    pub attached : Attached n (registered (event s)) tasks

  -- A step that leaves the event as `e'`.
  with_event-Good :
      (s : S) (e : Inner (Unit {0})) (tasks : ℕ → Task Mode)
      → Inv e
      → Attached n (registered e) tasks
      → Good (with_event s e) tasks
  with_event-Good s e tasks v a =
      let q = sym (laws.event-with_event s e) in
      record {
        event_inv = subst Inv q v;
        attached = subst (λ x. Attached n (registered x) tasks) q a;
      }

  -- A step that notifies one listener, and changes a task that sleeps on none.
  notified-Good :
      (s t : S) (tasks : ℕ → Task Mode) (i : ℕ) (task : Task Mode)
      → Good s tasks
      → event t ≡ notify (event s) (usize 1)
      → listener_of task ≡ listener_of (tasks i)
      → Good t (update tasks i task)
  unfolding usize
  notified-Good s t tasks i task g e h =
      let q = sym e in
      let p : (usize 1).count < usize_mod = omega arith in
      record {
        event_inv = subst Inv q (notify-Inv (event s) (usize 1) g.event_inv p);
        attached =
            subst (λ x. Attached n (registered x) (update tasks i task)) q
              (Attached-same g.attached i task h
                (λ id. registered-notify (event s) (usize 1) id g.event_inv p));
      }

  -- What `Good` says of the result of a poll by task `i`.
  abbrev GoodPoll : Mode → (ℕ → Task Mode) → ℕ → S × LockState × Poll (Unit {0}) → Type 0
  GoodPoll m tasks i (l, st, r) =
      Good (polled_lock ops l st r) (update tasks i (polled_task m st r))

  attempt-Good :
      (m : Mode) (s : S) (tasks : ℕ → Task Mode) (i : ℕ) (cx : Waker)
      → Good s tasks
      → i < n
      → listener_of (tasks i) ≡ none
      → (event s).next_id + 1 < usize_mod
      → GoodPoll m tasks i (attempt ops laws m s cx)
  unfolding drop_future
  attempt-Good m s tasks i cx g lt e h = elim (Bool-cases (free m s)) [
    | inl q ↦ rw q (notified-Good s (acquire m s) tasks i _ g (laws.event-acquire m s) (sym e))
    | inr q ↦ rw q (
        with_event-Good s (parked (event s) cx) _ (parked-Inv (event s) cx g.event_inv h) (
          Attached-enter g.attached i (event s).next_id (trying m (waiting (event s).next_id)) lt e
            refl (registered-next_id (event s) g.event_inv)
            (λ id. registered-parked (event s) id cx g.event_inv)))
  ]

  -- A task that takes its notification tries again without a listener.
  retry-Good :
      (m : Mode) (s : S) (tasks : ℕ → Task Mode) (i id : ℕ) (cx : Waker) (w : Option Waker)
      → Good s tasks
      → i < n
      → listener_of (tasks i) ≡ some id
      → get id (event s).listeners ≡ some (notified_entry w tt)
      → (event s).next_id + 1 < usize_mod
      → GoodPoll m tasks i (attempt ops laws m (with_event s (consumed (event s) id)) cx)
  retry-Good m s tasks i id cx w g lt e ge h =
      let c = consumed (event s) id in
      let left =
        with_event-Good s c (update tasks i outside) (consumed-Inv (event s) id w tt g.event_inv ge)
          (Attached-leave g.attached i id outside e refl
            (λ j. registered-removed (event s) id j g.event_inv)) in
      let empty : listener_of (update tasks i outside i) ≡ none = rw (==-self i) refl in
      let (l, st, r) = attempt ops laws m (with_event s c) cx in
      subst (Good (polled_lock ops l st r)) (update-update tasks i outside (polled_task m st r)) (
        attempt-Good m (with_event s c) (update tasks i outside) i cx left lt empty
          (rw (laws.event-with_event s c) h))

  poll-Good :
      (m : Mode) (s : S) (tasks : ℕ → Task Mode) (i : ℕ) (st : LockState) (cx : Waker)
      (x : S × LockState × Poll (Unit {0}))
      → Good s tasks
      → i < n
      → tasks i ≡ trying m st
      → (event s).next_id + 1 < usize_mod
      → lock_poll ops 3 m s st cx ≡ some x
      → GoodPoll m tasks i x
  poll-Good m s tasks i idle cx x g lt e h p =
      subst (GoodPoll m tasks i)
        (eq_of_some (sym (lock_poll-idle ops laws 1 m s cx g.event_inv h) ∙ p))
        (attempt-Good m s tasks i cx g lt (ap listener_of e) h)
  poll-Good m s tasks i (waiting id) cx x g lt e h p =
      let l = ap listener_of e in
      elim (Option-cases (get id (event s).listeners)) [
        | inl q ↦ ground (arith, g.attached.known i id l)
        | inr (entry, q) ↦ elim (entry_cases (event s) id q) [
          | inl (w, q') ↦
              subst (GoodPoll m tasks i)
                (eq_of_some (sym (lock_poll-waiting ops laws 2 m s id cx w q') ∙ p))
                (with_event-Good s (polled (event s) id cx) _
                  (polled-Inv (event s) id cx w g.event_inv q')
                  (Attached-same g.attached i (trying m (waiting id)) (sym l)
                    (λ j. registered-polled (event s) id j cx q')))
          | inr (w, tag, q') ↦
              subst (GoodPoll m tasks i)
                (eq_of_some (sym (lock_poll-notified ops laws 0 m s id cx w g.event_inv h q') ∙ p))
                (retry-Good m s tasks i id cx w g lt l q' h)
        ]
      ]

  drop-Good :
      (m : Mode) (s : S) (tasks : ℕ → Task Mode) (i : ℕ) (st : LockState)
      → Good s tasks
      → tasks i ≡ trying m st
      → Good (drop_future ops s st) (update tasks i outside)
  unfolding drop_future
  drop-Good m s tasks i idle g e = record {
    event_inv = g.event_inv;
    attached = Attached-same g.attached i outside (sym (ap listener_of e)) (λ j. refl);
  }
  drop-Good m s tasks i (waiting id) g e =
      with_event-Good s (drop_listener (event s) id) _ (drop_listener-Inv (event s) id g.event_inv)
        (Attached-leave g.attached i id outside (ap listener_of e) refl
          (λ j. registered-drop_listener (event s) id j g.event_inv))

  -- Every step keeps the event well formed, and each of its listeners with exactly one task.
  pub Step-Good : {s t : System S Mode} → Step ops n s t → Good s.lock s.tasks → Good t.lock t.tasks
  Step-Good {s} (begins i m lt e) g = record {
    event_inv = g.event_inv;
    attached = Attached-same g.attached i (trying m idle) (sym (ap listener_of e)) (λ j. refl);
  }
  Step-Good {s} (polls i m st cx {l} {st'} {r} lt e h p) g =
      poll-Good m s.lock s.tasks i st cx (l, st', r) g lt e h p
  Step-Good {s} (cancels i m st lt e) g = drop-Good m s.lock s.tasks i st g e
  Step-Good {s} (releases i m {l} lt e p) g =
      notified-Good s.lock l s.tasks i outside g (laws.event-release m s.lock l p)
        (sym (ap listener_of e))

  start-Good : (s : S) → event s ≡ new_with → Good s (λ i. outside)
  unfolding new_with get
  start-Good s e = record {
    event_inv = subst Inv (sym e) (Reach-Inv event_created);
    attached = record {
      known = λ i id h. cc;
      unique = λ i j id h k. cc;
      owned = λ id h. absurd (ground (arith, e, h));
    };
  }

  pub Reach-Good :
      {s : S} {t : System S Mode} → event s ≡ new_with → Reach ops n s t → Good t.lock t.tasks
  Reach-Good {s} e created = start-Good s e
  Reach-Good e (after r st) = Step-Good st (Reach-Good e r)
