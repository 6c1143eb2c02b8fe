-- ===== src/Lock/Rule.antt =====
-- An induction rule for the systems of src/lock: what holds of a lock and of the guards that are out is
-- checked on the event, on taking a free lock, and on dropping a guard.
use eneste_rs.Prelude.{
  ℕ, ◌+◌, ◌<◌, ◌≡◌, ◌∙◌, refl, sym, Bool, true, false, some, arith, Bool-cases, Option-cases, inl,
  inr, subst, ap, eq_of_some, usize_mod, update,
}
use eneste_rs.Event.Map.{get}
use eneste_rs.Event.{Inner, Poll, Waker, new_with, drop_listener}
use eneste_rs.Event.Listener.{entry_cases, consumed, polled, parked}
use eneste_rs.Lock.{LockState, waiting, idle, LockOps, LockLaws, lock_poll, drop_future}
use eneste_rs.Lock.Loop.{attempt, lock_poll-idle, lock_poll-waiting, lock_poll-notified}
use eneste_rs.Lock.Tasks.{Task, outside, trying, holding, listener_of}
use eneste_rs.Lock.System.{
  System, Step, begins, polls, cancels, releases, Reach, created, after, polled_task, polled_lock,
}
use eneste_rs.Lock.Invariant.{Good, Reach-Good}

abbrev pub is_holding : {Mode : Type 0} → Task Mode → Bool
is_holding outside = false
is_holding (trying m st) = false
is_holding (holding m) = true

module _ {S Mode : Type 0} (ops : LockOps S Mode) (laws : LockLaws ops) (n : ℕ) where
  open ops use {event, with_event, free, acquire, release}

  pub record Keeps (P : S → (ℕ → Task Mode) → Type 0) : Type 0 where
    pub on_event : (s : S) (f : ℕ → Task Mode) (e : Inner (Unit {0})) → P s f → P (with_event s e) f
    pub on_change :
        (s : S) (f : ℕ → Task Mode) (i : ℕ) (t : Task Mode)
        → i < n
        → is_holding (f i) ≡ false
        → is_holding t ≡ false
        → P s f
        → P s (update f i t)
    pub on_acquire :
        (s : S) (f : ℕ → Task Mode) (i : ℕ) (m : Mode)
        → i < n
        → is_holding (f i) ≡ false
        → free m s ≡ true
        → P s f
        → P (acquire m s) (update f i (holding m))
    pub on_release :
        (s t : S) (f : ℕ → Task Mode) (i : ℕ) (m : Mode)
        → i < n
        → f i ≡ holding m
        → release m s ≡ some t
        → P s f
        → P t (update f i outside)

  module _ (P : S → (ℕ → Task Mode) → Type 0) (k : Keeps P) where
    abbrev KeptPoll : Mode → (ℕ → Task Mode) → ℕ → S × LockState × Poll (Unit {0}) → Type 0
    KeptPoll m f i (l, st, r) = P (polled_lock ops l st r) (update f i (polled_task m st r))

    attempt-keeps :
        (m : Mode) (s : S) (f : ℕ → Task Mode) (i : ℕ) (cx : Waker)
        → i < n
        → is_holding (f i) ≡ false
        → P s f
        → KeptPoll m f i (attempt ops laws m s cx)
    unfolding drop_future
    attempt-keeps m s f i cx lt h p = elim (Bool-cases (free m s)) [
      | inl q ↦ rw q (k.on_acquire s f i m lt h q p)
      | inr q ↦ rw q (k.on_event s _ (parked (event s) cx) (k.on_change s f i _ lt h refl p))
    ]

    poll-keeps :
        (m : Mode) (s : S) (f : ℕ → Task Mode) (i : ℕ) (st : LockState) (cx : Waker)
        (x : S × LockState × Poll (Unit {0}))
        → Good ops laws n s f
        → i < n
        → f i ≡ trying m st
        → (event s).next_id + 1 < usize_mod
        → lock_poll ops 3 m s st cx ≡ some x
        → P s f
        → KeptPoll m f i x
    poll-keeps m s f i idle cx x g lt e h q p =
        subst (KeptPoll m f i)
          (eq_of_some (sym (lock_poll-idle ops laws 1 m s cx g.event_inv h) ∙ q))
          (attempt-keeps m s f i cx lt (ap is_holding e) p)
    poll-keeps m s f i (waiting id) cx x g lt e h q p =
        elim (Option-cases (get id (event s).listeners)) [
          | inl z ↦ ground (arith, g.attached.known i id (ap listener_of e))
          | inr (entry, z) ↦ elim (entry_cases (event s) id z) [
            | inl (w, z') ↦
                subst (KeptPoll m f i)
                  (eq_of_some (sym (lock_poll-waiting ops laws 2 m s id cx w z') ∙ q))
                  (k.on_event s _ (polled (event s) id cx)
                    (k.on_change s f i _ lt (ap is_holding e) refl p))
            | inr (w, tag, z') ↦
                subst (KeptPoll m f i)
                  (eq_of_some
                    (sym (lock_poll-notified ops laws 0 m s id cx w g.event_inv h z') ∙ q))
                  (attempt-keeps m (with_event s (consumed (event s) id)) f i cx lt
                    (ap is_holding e) (k.on_event s f (consumed (event s) id) p))
          ]
        ]

    drop-keeps :
        (s : S) (f : ℕ → Task Mode) (i : ℕ) (m : Mode) (st : LockState)
        → i < n
        → f i ≡ trying m st
        → P s f
        → P (drop_future ops s st) (update f i outside)
    unfolding drop_future
    drop-keeps s f i m idle lt e p = k.on_change s f i outside lt (ap is_holding e) refl p
    drop-keeps s f i m (waiting id) lt e p =
        k.on_event s _ (drop_listener (event s) id)
          (k.on_change s f i outside lt (ap is_holding e) refl p)

    Step-keeps :
        {s t : System S Mode}
        → Step ops n s t
        → Good ops laws n s.lock s.tasks
        → P s.lock s.tasks
        → P t.lock t.tasks
    Step-keeps {s} (begins i m lt e) g p =
        k.on_change s.lock s.tasks i (trying m idle) lt (ap is_holding e) refl p
    Step-keeps {s} (polls i m st cx {l} {st'} {r} lt e h q) g p =
        poll-keeps m s.lock s.tasks i st cx (l, st', r) g lt e h q p
    Step-keeps {s} (cancels i m st lt e) g p = drop-keeps s.lock s.tasks i m st lt e p
    Step-keeps {s} (releases i m {l} lt e q) g p = k.on_release s.lock l s.tasks i m lt e q p

    pub Reach-keeps :
        {s : S} {t : System S Mode}
        → event s ≡ new_with
        → P s (λ i. outside)
        → Reach ops n s t
        → P t.lock t.tasks
    Reach-keeps e p created = p
    Reach-keeps e p (after r st) = Step-keeps st (Reach-Good ops laws n e r) (Reach-keeps e p r)
