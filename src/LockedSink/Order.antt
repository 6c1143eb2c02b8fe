-- ===== src/LockedSink/Order.antt =====
-- Every history of a `LockedSink` (src/poll_lock.rs), next to the list of the items that it accepted.
use eneste_rs.Prelude.{
  ℕ, suc, ◌+◌, ◌<◌, ◌≡◌, ◌⊎◌, refl, sym, Bool, true, false, List, [], ◌∷◌, ◌++◌, append-nil, Option,
  none, some, arith, inl, inr, subst, usize_mod, Option-cases,
}
use eneste_rs.Event.{Poll, ready, pending, Waker}
use eneste_rs.PollLock.Total.{Good}
use eneste_rs.LockedSink.{
  SinkResult, ok, error, SinkOps, LockedSink, with_guard, poll_flush_slot, poll_lock_and_flush_slot,
  poll_ready, after_slot, poll_flush, poll_close,
}
use eneste_rs.LockedSink.Slot.{with_guard_lem, Through}

-- The inner sink, with the list of the items that were handed to its `start_send`.
abbrev pub logged : {S M E : Type 0} → SinkOps S M E → SinkOps (S × List M) M E
logged ops = record {
  poll_ready = λ s cx. let (k, r) = ops.poll_ready s.0 cx in ((k, s.1), r);
  start_send = λ s m. let (k, r) = ops.start_send s.0 m in ((k, s.1 ++ m ∷ []), r);
  poll_flush = λ s cx. let (k, r) = ops.poll_flush s.0 cx in ((k, s.1), r);
  poll_close = λ s cx. let (k, r) = ops.poll_close s.0 cx in ((k, s.1), r);
}

abbrev pub slot_items : {M : Type 0} → Option M → List M
slot_items none = []
slot_items (some m) = m ∷ []

abbrev pub is_done : {E : Type 0} → Poll (SinkResult E) → Bool
is_done (ready ok) = true
is_done (ready (error e)) = false
is_done pending = false

-- The items on their way: those that the inner sink got, and then the one in the slot.
abbrev pub items : {S M : Type 0} → S × List M → Option M → List M
items s slot = s.1 ++ slot_items slot

abbrev pub sink_items : {S M : Type 0} → LockedSink (S × List M) M → List M
sink_items k = items k.lock.value.value k.slot

module _ {S M E : Type 0} where
  -- The items stay, and an answer without an error leaves the slot empty.
  abbrev pub Keeps : Option M → List M → (S × List M) × Option M × Poll (SinkResult E) → Type 0
  Keeps slot before (s, slot', r) =
      (items s slot' ≡ before) × ((slot' ≡ none) ⊎ ((slot' ≡ slot) × (is_done r ≡ false)))

  with_guard-Keeps :
      (body : S × List M → Option M → (S × List M) × Option M × Poll (SinkResult E))
      (k l : LockedSink (S × List M) M) (r : Poll (SinkResult E))
      → Keeps k.slot (sink_items k) (body k.lock.value.value k.slot)
      → Through body k l r
      → Keeps k.slot (sink_items k) (l.lock.value.value, l.slot, r)
  with_guard-Keeps body k l r b (inl (p, q, v, u)) = (rw (q, v) refl, inr (q, rw p refl))
  with_guard-Keeps body k l r b (inr (e, f, u)) = subst (Keeps k.slot (sink_items k)) (sym e) b

module _ {S M E : Type 0} (ops : SinkOps S M E) where
  flush_slot-Keeps :
      (s : S × List M) (slot : Option M) (cx : Waker)
      → Keeps slot (items s slot) (poll_flush_slot (logged ops) s slot cx)
  unfolding poll_flush_slot
  flush_slot-Keeps s none cx = (refl, inl refl)
  flush_slot-Keeps s (some m) cx = ground (arith, append-nil (s.1 ++ m ∷ []))

  after_slot-Keeps :
      (finish : S → Waker → S × Poll (SinkResult E)) (slot : Option M) (before : List M)
      (b : (S × List M) × Option M × Poll (SinkResult E)) (cx : Waker)
      → Keeps slot before b
      → Keeps slot before
          (after_slot (logged ops) (λ s c. let (k, r) = finish s.0 c in ((k, s.1), r)) b cx)
  unfolding after_slot
  after_slot-Keeps finish slot before (s, left, pending) cx k = k
  after_slot-Keeps finish slot before (s, left, ready (error e)) cx k = k
  after_slot-Keeps finish slot before (s, left, ready ok) cx k = ground (arith, k)

  -- The result of a method on a sink: it came back, and kept the items.
  abbrev pub Returned :
      LockedSink (S × List M) M → Option (LockedSink (S × List M) M × Poll (SinkResult E)) → Type 0
  Returned k result =
      (l : LockedSink (S × List M) M) × (r : Poll (SinkResult E)) × (result ≡ some (l, r))
      × Good l.lock
      × Keeps k.slot (sink_items k) (l.lock.value.value, l.slot, r)

  module _ (k : LockedSink (S × List M) M) (cx : Waker) (g : Good k.lock)
      (h : k.lock.value.event.next_id + 1 < usize_mod) where
    with_guard-Returned :
        (body : S × List M → Option M → (S × List M) × Option M × Poll (SinkResult E))
        → Keeps k.slot (sink_items k) (body k.lock.value.value k.slot)
        → Returned k (with_guard body k cx)
    with_guard-Returned body b =
        let w = with_guard_lem body k cx g h in
        (w.0, w.1, w.2, w.3, with_guard-Keeps body k w.0 w.1 b w.4)

    pub flush-Returned : Returned k (poll_flush (logged ops) k cx)
    unfolding poll_flush
    flush-Returned = with_guard-Returned _ (
        after_slot-Keeps ops.poll_flush k.slot (sink_items k) _ cx
          (flush_slot-Keeps k.lock.value.value k.slot cx))

    pub close-Returned : Returned k (poll_close (logged ops) k cx)
    unfolding poll_close
    close-Returned = with_guard-Returned _ (
        after_slot-Keeps ops.poll_close k.slot (sink_items k) _ cx
          (flush_slot-Keeps k.lock.value.value k.slot cx))

    slot-Returned : Returned k (poll_lock_and_flush_slot (logged ops) k cx)
    unfolding poll_lock_and_flush_slot
    slot-Returned = with_guard-Returned _ (flush_slot-Keeps k.lock.value.value k.slot cx)

    -- Two rounds are enough for `poll_ready`: after a flush without an error the slot is empty.
    after_flush :
        (fuel : ℕ) (m : M) (l : LockedSink (S × List M) M) (r : Poll (SinkResult E))
        → k.slot ≡ some m
        → poll_lock_and_flush_slot (logged ops) k cx ≡ some (l, r)
        → (l.slot ≡ none) ⊎ ((l.slot ≡ k.slot) × (is_done r ≡ false))
        → poll_ready (logged ops) (suc (suc fuel)) k cx ≡ some (l, r)
    unfolding poll_ready
    after_flush fuel m l pending n q e = ground (arith, n, q)
    after_flush fuel m l (ready (error x)) n q e = ground (arith, n, q)
    after_flush fuel m l (ready ok) n q e = ground (arith, n, q)

    pub ready-Returned : (fuel : ℕ) → Returned k (poll_ready (logged ops) (suc (suc fuel)) k cx)
    unfolding poll_ready
    ready-Returned fuel = elim (Option-cases k.slot) [
      | inl n ↦ (k, ready ok, ground (arith, n), g, (refl, inl n))
      | inr (m, n) ↦
          let w = slot-Returned in (w.0, w.1, after_flush fuel m w.0 w.1 n w.2 w.4.1, w.3, w.4)
    ]
