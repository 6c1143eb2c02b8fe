-- ===== src/LockedSink/Slot.antt =====
-- A method of `LockedSink` (src/poll_lock.rs) behind its guard, and the slot.
use eneste_rs.Prelude.{
  ◌+◌, ◌<◌, ◌≡◌, ◌⊎◌, refl, sym, ap, false, Option, some, arith, inl, inr, subst, usize_mod,
}
use eneste_rs.Event.{Poll, ready, pending, Waker, notify, usize}
use eneste_rs.Event.Invariant.{Inv, notify-Inv}
use eneste_rs.Mutex.{deref_set, drop_guard}
use eneste_rs.PollLock
use eneste_rs.PollLock.{AsyncPollMutex, PollState, unlocking, locked}
use eneste_rs.PollLock.Total.{Good, Registered, Outcome, poll_lock-Answers}
use eneste_rs.LockedSink.{LockedSink, poll_lock, put_back, with_guard}

put_back-Good :
    {S M : Type 0} (p : AsyncPollMutex S) (inner : S) (slot : Option M)
    → Inv p.value.event
    → p.state ≡ locked
    → Good (put_back p inner slot).lock
unfolding put_back drop_guard deref_set usize
put_back-Good p inner slot v s = record {
  event = notify-Inv p.value.event (usize 1) v (omega arith);
  attached = subst (Registered (notify p.value.event (usize 1))) (sym s) tt;
}

module _ {S M A : Type 0} where
  -- What a method with the body `body` leaves: nothing has changed but the lock's future, or the body ran
  -- once on a free mutex, and the mutex is free again.
  abbrev pub Through :
      (S → Option M → S × Option M × Poll A) → LockedSink S M → LockedSink S M → Poll A → Type 0
  Through body k l r =
      ((r ≡ pending)
        × (l.slot ≡ k.slot)
        × (l.lock.value.value ≡ k.lock.value.value)
        × (l.lock.value.locked ≡ k.lock.value.locked))
      ⊎ (((l.lock.value.value, l.slot, r) ≡ body k.lock.value.value k.slot)
          × (k.lock.value.locked ≡ false)
          × (l.lock.value.locked ≡ false))

  pub with_guard_lem :
      (body : S → Option M → S × Option M × Poll A) (k : LockedSink S M) (cx : Waker)
      → Good k.lock
      → k.lock.value.event.next_id + 1 < usize_mod
      → (l : LockedSink S M) × (r : Poll A) × (with_guard body k cx ≡ some (l, r))
        × Good l.lock
        × Through body k l r
  unfolding with_guard poll_lock put_back drop_guard deref_set
  with_guard_lem body k cx g h =
      let (p, r, q, gp, out) = poll_lock-Answers 0 k.lock cx g h in from p r q gp out
    where
      from :
          (p : AsyncPollMutex S) (r : Poll (Unit {0}))
          → PollLock.poll_lock 2 k.lock cx ≡ some (p, r)
          → Good p
          → Outcome cx k.lock p r
          → (l : LockedSink S M) × (a : Poll A) × (with_guard body k cx ≡ some (l, a))
            × Good l.lock
            × Through body k l a
      from p pending q gp out = (
        record k { lock = p },
        pending,
        rw (q, with_guard, poll_lock) refl,
        gp,
        inl (refl, refl, out.1, out.0),
      )
      from p (ready u) q gp out =
          let b = body p.value.value k.slot in
          (
            put_back p b.0 b.1,
            b.2,
            rw (q, with_guard, poll_lock) refl,
            put_back-Good p b.0 b.1 gp.event out.0,
            inr (ap (λ v. body v k.slot) out.3, out.1, refl),
          )
