-- ===== src/Mutex/Safety.antt =====
-- `AsyncMutex` (src/lock/mutex.rs) excludes: one guard at a time, and `locked` says whether it is out.
use eneste_rs.Prelude.{
  ℕ, ◌+◌, ◌<◌, ◌≡◌, refl, sym, true, false, some, arith, sum_below, sum_below-update, sum_below-ge,
  sum_below-ge_two, sum_below-zero, usize_mod,
}
use native.Mathlib.Decide.{ℕ_discrete}
use eneste_rs.Event.{ready, Waker}
use eneste_rs.Event.Counts.{one_if}
use eneste_rs.Lock.{waiting, idle, LockLaws}
use eneste_rs.Lock.Tasks.{Task, outside, trying, holding}
use eneste_rs.Lock.System.{System, Reach}
use eneste_rs.Lock.Rule.{is_holding, Keeps, Reach-keeps}
use eneste_rs.Lock.Wakeup.{no_lost_wakeup}
use eneste_rs.Mutex.{AsyncMutex, new, is_locked, mutex_ops, poll}

abbrev weight : Task (Unit {0}) → ℕ
weight t = one_if (is_holding t)

module _ {T : Type 0} where
  pub mutex_laws : LockLaws (mutex_ops {T = T})
  unfolding mutex_ops
  mutex_laws = record {
    event-with_event = λ s e. refl;
    with_event-with_event = λ s e e'. refl;
    free-with_event = λ m s e. refl;
    available-with_event = λ s e. refl;
    event-acquire = λ m s. refl;
    event-release = λ m s t h. ground arith;
    free_of_available = λ m s h. h;
  }

  -- `locked` counts the guards that are out.
  abbrev pub Guarded : ℕ → AsyncMutex T → (ℕ → Task (Unit {0})) → Type 0
  Guarded n m f = one_if m.locked ≡ sum_below weight n f

  Guarded-keeps : (n : ℕ) → Keeps (mutex_ops {T = T}) mutex_laws n (Guarded n)
  unfolding mutex_ops
  Guarded-keeps n = record {
    on_event = λ s f e p. p;
    on_change = λ s f i t lt h h' p. ground (arith, sum_below-update weight n f i t lt);
    on_acquire = λ s f i m lt h q p. ground (arith, sum_below-update weight n f i (holding m) lt);
    on_release = λ s t f i m lt h q p. ground (arith, sum_below-update weight n f i outside lt);
  }

  module _ (n : ℕ) (value : T) where
    Reach-Guarded :
        {t : System (AsyncMutex T) (Unit {0})}
        → Reach mutex_ops n (new value) t
        → Guarded n t.lock t.tasks
    unfolding mutex_ops new
    Reach-Guarded r =
        Reach-keeps mutex_ops mutex_laws n (Guarded n) (Guarded-keeps n) refl
          (sym (sum_below-zero weight n _ (λ i. refl))) r

    -- Whatever the interleaving of polls, cancelled futures and dropped guards, two tasks never hold a
    -- guard of the mutex at once, and while one does the mutex is locked.
    pub mutual_exclusion :
        {t : System (AsyncMutex T) (Unit {0})} (i j : ℕ)
        → Reach mutex_ops n (new value) t
        → i < n
        → j < n
        → t.tasks i ≡ holding tt
        → t.tasks j ≡ holding tt
        → (i ≡ j) × (is_locked t.lock ≡ true)
    unfolding is_locked
    mutual_exclusion {t} i j r li lj hi hj = elim (ℕ_discrete i j) [
      | yes e ↦ (e, ground (arith, Reach-Guarded r, sum_below-ge weight n t.tasks i li))
      | no ne ↦
          absurd (ground (arith, Reach-Guarded r, sum_below-ge_two weight n t.tasks i j li lj ne))
    ]

    -- If the mutex is unlocked while some task waits for it, then some waiting task has been notified,
    -- and its next poll returns a guard.
    pub unlocked_wakes :
        {t : System (AsyncMutex T) (Unit {0})} (cx : Waker) (i id : ℕ)
        → Reach mutex_ops n (new value) t
        → t.lock.event.next_id + 1 < usize_mod
        → is_locked t.lock ≡ false
        → t.tasks i ≡ trying tt (waiting id)
        → (j : ℕ) × (k : ℕ) × (l : AsyncMutex T) × (j < n)
          × (t.tasks j ≡ trying tt (waiting k))
          × (poll 3 t.lock (waiting k) cx ≡ some (l, idle, ready tt))
    unfolding mutex_ops new poll
    unlocked_wakes cx i id r h u w =
        let (j, m, k, l, lt, tr, p) =
          no_lost_wakeup mutex_ops mutex_laws n cx i id refl r h (ground arith) (ground arith) in
        (j, k, l, lt, tr, p)
