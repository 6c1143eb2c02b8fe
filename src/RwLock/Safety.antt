-- ===== src/RwLock/Safety.antt =====
-- `RwLock` (src/lock/rwlock.rs): a writer excludes everybody, and the counters count the guards.
use eneste_rs.Prelude.{
  ℕ, ◌+◌, ◌≤◌, ◌<◌, ◌≡◌, ◌≢◌, refl, sym, ap, true, some, arith, sum_below, sum_below-update,
  sum_below-ge, sum_below-ge_two, sum_below-zero, sum_below-le, usize_mod, is_some, usize_add_lem,
  usize_sub_lem,
}
use native.Mathlib.Decide.{ℕ_discrete}
use eneste_rs.Event.{ready, Waker}
use eneste_rs.Event.Counts.{one_if}
use eneste_rs.Lock.{waiting, idle, LockLaws}
use eneste_rs.Lock.Tasks.{Task, outside, trying, holding, listener_of}
use eneste_rs.Lock.System.{System, Reach}
use eneste_rs.Lock.Rule.{Keeps, Reach-keeps}
use eneste_rs.Lock.Wakeup.{no_lost_wakeup}
use eneste_rs.RwLock.{RwLock, Mode, read, write, new, can_write, drop_guard, rwlock_ops, poll}

abbrev pub reading : Task Mode → ℕ
reading outside = 0
reading (trying m st) = 0
reading (holding read) = 1
reading (holding write) = 0

abbrev pub writing : Task Mode → ℕ
writing outside = 0
writing (trying m st) = 0
writing (holding read) = 0
writing (holding write) = 1

reading-le : (t : Task Mode) → reading t ≤ 1
reading-le outside = omega arith
reading-le (trying m st) = omega arith
reading-le (holding read) = omega arith
reading-le (holding write) = omega arith

module _ {T : Type 0} where
  pub rwlock_laws : LockLaws (rwlock_ops {T = T})
  unfolding rwlock_ops
  rwlock_laws = record {
    event-with_event = λ s e. refl;
    with_event-with_event = λ s e e'. refl;
    free-with_event = λ m s e. ground arith;
    available-with_event = λ s e. refl;
    event-acquire = λ m s. ground arith;
    event-release = λ m s t h. ground arith;
    free_of_available = λ m s h. ground arith;
  }

  pub record Guarded (n : ℕ) (r : RwLock T) (f : ℕ → Task Mode) : Type 0 where
    pub readers_counted : r.readers ≡ sum_below reading n f
    pub writers_counted : one_if r.locked ≡ sum_below writing n f
    pub apart : r.locked ≡ true → r.readers ≡ 0

  Guarded-keeps : (n : ℕ) → n + 1 < usize_mod → Keeps (rwlock_ops {T = T}) rwlock_laws n (Guarded n)
  unfolding rwlock_ops
  Guarded-keeps n few = record {
    on_event = λ s f e p. record {
      readers_counted = p.readers_counted;
      writers_counted = p.writers_counted;
      apart = p.apart;
    };
    on_change = λ s f i t lt h h' p.
        ground (arith, sum_below-update reading n f i t lt, sum_below-update writing n f i t lt);
    on_acquire = λ s f i m lt h q p. ground (
      arith,
      sum_below-update reading n f i (holding m) lt,
      sum_below-update writing n f i (holding m) lt,
      sum_below-le reading n f reading-le,
      usize_add_lem s.readers 1,
    );
    on_release = λ s t f i m lt h q p. ground (
      arith,
      sum_below-update reading n f i outside lt,
      sum_below-update writing n f i outside lt,
      sum_below-le reading n f reading-le,
      usize_sub_lem s.readers 1,
    );
  }

  module _ (n : ℕ) (few : n + 1 < usize_mod) (value : T) where
    Reach-Guarded :
        {t : System (RwLock T) Mode} → Reach rwlock_ops n (new value) t → Guarded n t.lock t.tasks
    unfolding rwlock_ops new
    Reach-Guarded r =
        Reach-keeps rwlock_ops rwlock_laws n (Guarded n) (Guarded-keeps n few) refl
          (record {
            readers_counted = sym (sum_below-zero reading n _ (λ i. refl));
            writers_counted = sym (sum_below-zero writing n _ (λ i. refl));
            apart = λ h. refl;
          })
          r

    -- With fewer tasks than `usize` counts, and whatever the interleaving of polls, cancelled futures
    -- and dropped guards: while a task holds a write guard no other task holds a guard of any mode.
    pub writer_excludes :
        {t : System (RwLock T) Mode} (i j : ℕ) (m : Mode)
        → Reach rwlock_ops n (new value) t
        → i < n
        → j < n
        → t.tasks i ≡ holding write
        → t.tasks j ≡ holding m
        → i ≡ j
    writer_excludes {t} i j m r li lj hi hj = elim (ℕ_discrete i j) [
      | yes e ↦ e
      | no ne ↦ absurd (excluded m r hj ne)
    ]
      where
        excluded : (m : Mode) → Reach rwlock_ops n (new value) t → t.tasks j ≡ holding m → i ≢ j → ⊥
        excluded read r hj ne = ground (
          arith,
          Reach-Guarded r,
          sum_below-ge writing n t.tasks i li,
          sum_below-ge reading n t.tasks j lj,
        )
        excluded write r hj ne =
            ground (arith, Reach-Guarded r, sum_below-ge_two writing n t.tasks i j li lj ne)

    -- `readers` is the number of read guards that are out, so the `assert!` of `decrement_readers`
    -- never fails: the drop of a guard that a task holds returns.
    pub drop_guard_total :
        {t : System (RwLock T) Mode} (i : ℕ) (m : Mode)
        → Reach rwlock_ops n (new value) t
        → i < n
        → t.tasks i ≡ holding m
        → (t.lock.readers ≡ sum_below reading n t.tasks) × (is_some (drop_guard m t.lock) ≡ true)
    unfolding drop_guard
    drop_guard_total {t} i read r li h =
        let g = Reach-Guarded r in
        (g.readers_counted, ground (arith, g.readers_counted, sum_below-ge reading n t.tasks i li))
    drop_guard_total {t} i write r li h = ((Reach-Guarded r).readers_counted, refl)

    -- If no guard is out while some task waits for one, then some waiting task has been notified, and
    -- its next poll returns a guard.
    pub available_wakes :
        {t : System (RwLock T) Mode} (cx : Waker) (i id : ℕ) (m : Mode)
        → Reach rwlock_ops n (new value) t
        → t.lock.event.next_id + 1 < usize_mod
        → can_write t.lock ≡ true
        → t.tasks i ≡ trying m (waiting id)
        → (j : ℕ) × (m' : Mode) × (k : ℕ) × (l : RwLock T) × (j < n)
          × (t.tasks j ≡ trying m' (waiting k))
          × (poll 3 m' t.lock (waiting k) cx ≡ some (l, idle, ready tt))
    unfolding rwlock_ops new poll
    available_wakes cx i id m r h u w =
        no_lost_wakeup rwlock_ops rwlock_laws n cx i id refl r h u (ap listener_of w)
