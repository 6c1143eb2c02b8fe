-- ===== src/Executor/Calls.antt =====
-- src/executor.rs: what a future may do to its executor while it is polled or dropped.
use eneste_rs.Prelude.{
  ℕ, zero, suc, ◌+◌, ◌≤◌, ◌<◌, ◌^◌, ◌≡◌, refl, sym, false, List, [], ◌∷◌, ◌++◌, ◌||◌, ◌∙◌,
  append-nil, append_assoc, Option, none, some, arith, Bool-cases, inl, inr,
}
use eneste_rs.Executor.{
  ExecutorState, is_finished, schedule, spawn, cancel_task, finish, FutureOps, drop_left, drop_slot,
  drop_task, Slot, drop_slots,
}
use eneste_rs.Event.{Poll, ready, pending}
use eneste_rs.Executor.Invariant.{Inv, schedule-Inv, spawn-Inv, cancel_task-Inv, outside-Inv}

module _ {W F : Type 0} where
  -- What a future does to its executor while it is polled, or dropped: any wake-ups, spawns and
  -- cancellations, and any change of what it shares with the rest of the program. What the drop of a canceled future does comes after its cancellation.
  pub data Calls (e : ExecutorState W F) : ExecutorState W F → Type 0 where
    nothing : Calls e e
    wakes_task :
        {k : ExecutorState W F} → Calls e k → (id : ℕ) → id < k.next_id → Calls e (schedule id k)
    spawns :
        {k : ExecutorState W F}
        → Calls e k
        → (f : F) → k.next_id + 1 < 2 ^ 64
        → k.closed ≡ false
        → Calls e (spawn f k).0
    cancels :
        {k : ExecutorState W F}
        → Calls e k
        → (id : ℕ) → id < k.next_id
        → Calls e (cancel_task (some id) k).0
    acts : {k : ExecutorState W F} → Calls e k → (w : W) → Calls e (record k { outside = w })

  -- What a call leaves alone: ids are only added, the inbox only grows at its end.
  pub record Grows (e k : ExecutorState W F) : Type 0 where
    pub ids : e.next_id ≤ k.next_id
    pub lives : k.closed ≡ e.closed
    pub behind : (new : List ℕ) × (k.inbox ≡ e.inbox ++ new)

  pub Grows-refl : (e : ExecutorState W F) → Grows e e
  Grows-refl e = record { ids = omega arith; lives = refl; behind = ([], sym (append-nil e.inbox)) }

  pub Grows-trans : (a b c : ExecutorState W F) → Grows a b → Grows b c → Grows a c
  Grows-trans a b c g h = record {
    ids = omega (arith, g.ids, h.ids);
    lives = h.lives ∙ g.lives;
    behind = (
      g.behind.0 ++ h.behind.0,
      ground (arith, g.behind.1, h.behind.1, append_assoc a.inbox g.behind.0 h.behind.0),
    );
  }

  pub schedule-Grows : (id : ℕ) (e : ExecutorState W F) → Grows e (schedule id e)
  unfolding schedule
  schedule-Grows id e = record {
    ids = ground arith;
    lives = ground arith;
    behind = elim (Bool-cases (is_finished (e.headers id) || e.closed)) [
      | inl q ↦ ([], rw (q, append-nil e.inbox) refl)
      | inr q ↦ elim (Bool-cases (e.headers id).queued) [
        | inl p ↦ ([], rw (q, p, append-nil e.inbox) refl)
        | inr p ↦ (id ∷ [], rw (q, p) refl)
      ]
    ];
  }

  pub spawn-Grows : (f : F) (e : ExecutorState W F) → e.next_id + 1 < 2 ^ 64 → Grows e (spawn f e).0
  unfolding spawn
  spawn-Grows f e lt =
      let s = schedule-Grows e.next_id _ in
      record { ids = omega (arith, s.ids); lives = s.lives; behind = s.behind }

  pub cancel_task-Grows : (id : ℕ) (e : ExecutorState W F) → Grows e (cancel_task (some id) e).0
  unfolding cancel_task
  cancel_task-Grows id e = record {
    ids = ground arith;
    lives = ground arith;
    behind = ([], ground (arith, append-nil e.inbox));
  }

  pub Calls-Inv :
      (held : List ℕ) (r : Option ℕ) {e k : ExecutorState W F}
      → Calls e k
      → Inv held r e
      → Inv held r k
  Calls-Inv held r nothing v = v
  Calls-Inv held r (wakes_task {k} c id lt) v = schedule-Inv held r id k lt (Calls-Inv held r c v)
  Calls-Inv held r (spawns {k} c f lt on) v = spawn-Inv held r f k lt on (Calls-Inv held r c v)
  Calls-Inv held r (cancels {k} c id lt) v = cancel_task-Inv held r id k lt (Calls-Inv held r c v)
  Calls-Inv held r (acts {k} c w) v = outside-Inv held r k w (Calls-Inv held r c v)

  pub Calls-Grows : {e k : ExecutorState W F} → Calls e k → Grows e k
  Calls-Grows {e} nothing = Grows-refl e
  Calls-Grows {e} (wakes_task {k} c id lt) =
      Grows-trans e k (schedule id k) (Calls-Grows c) (schedule-Grows id k)
  Calls-Grows {e} (spawns {k} c f lt on) =
      Grows-trans e k (spawn f k).0 (Calls-Grows c) (spawn-Grows f k lt)
  Calls-Grows {e} (cancels {k} c id lt) =
      Grows-trans e k (cancel_task (some id) k).0 (Calls-Grows c) (cancel_task-Grows id k)
  Calls-Grows {e} (acts {k} c w) =
      let g = Calls-Grows c in record { ids = g.ids; lives = g.lives; behind = g.behind }

  pub finish-Grows :
      (id : ℕ) (f : F) (r : Poll (Unit {0})) (e : ExecutorState W F) → Grows e (finish id f r e).0
  unfolding finish
  finish-Grows id f (ready u) e = record {
    ids = omega arith;
    lives = refl;
    behind = ([], sym (append-nil e.inbox));
  }
  finish-Grows id f pending e = record {
    ids = ground arith;
    lives = ground arith;
    behind = ([], ground (arith, append-nil e.inbox));
  }

  pub Calls-trans : {a b c : ExecutorState W F} → Calls a b → Calls b c → Calls a c
  Calls-trans p nothing = p
  Calls-trans p (wakes_task q id lt) = wakes_task (Calls-trans p q) id lt
  Calls-trans p (spawns q f lt on) = spawns (Calls-trans p q) f lt on
  Calls-trans p (cancels q id lt) = cancels (Calls-trans p q) id lt
  Calls-trans p (acts q w) = acts (Calls-trans p q) w

  -- What the executor relies on: a poll and a drop change it by calls only.
  pub record FutureLaws (ops : FutureOps W F) : Type 0 where
    pub poll_calls :
        (f : F) (id : ℕ) (e : ExecutorState W F) → id < e.next_id → Calls e (ops.poll f id e).0
    pub drop_calls : (f : F) (e : ExecutorState W F) → Calls e (ops.drop_future f e)

module _ {W F : Type 0} (ops : FutureOps W F) (laws : FutureLaws ops) where
  pub drop_left-Calls : (left : Option F) (e : ExecutorState W F) → Calls e (drop_left ops left e)
  unfolding drop_left
  drop_left-Calls none e = nothing
  drop_left-Calls (some f) e = laws.drop_calls f e

  pub drop_slot-Calls :
      (slot : Option (Slot F)) (e : ExecutorState W F) → Calls e (drop_slot ops slot e)
  unfolding drop_slot
  drop_slot-Calls none e = nothing
  drop_slot-Calls (some s) e = drop_left-Calls s.future e

  pub drop_slots-Calls :
      (n : ℕ) (slots : ℕ → Option (Slot F)) (e : ExecutorState W F)
      → Calls e (drop_slots ops n slots e)
  unfolding drop_slots
  drop_slots-Calls zero slots e = nothing
  drop_slots-Calls (suc n) slots e =
      Calls-trans (drop_slots-Calls n slots e)
        (drop_slot-Calls (slots n) (drop_slots ops n slots e))

  -- The drop of a handle is a call like any other.
  pub drop_task-Calls :
      {e k : ExecutorState W F}
      → Calls e k
      → (id : ℕ) → id < k.next_id
      → Calls e (drop_task ops (some id) k)
  unfolding drop_task
  drop_task-Calls {e} {k} c id lt =
      Calls-trans (cancels c id lt)
        (drop_slot-Calls (cancel_task (some id) k).1 (cancel_task (some id) k).0)
