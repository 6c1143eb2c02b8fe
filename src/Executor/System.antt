-- ===== src/Executor/System.antt =====
-- src/executor.rs: every history of an executor, between two of its calls.
use eneste_rs.Prelude.{
  ℕ, ◌+◌, ◌≤◌, ◌<◌, ◌^◌, ◌≡◌, ◌↔◌, refl, true, false, List, [], ◌∷◌, ◌++◌, none, some, arith, min,
  length, Bool-cases, inl, inr,
}
use eneste_rs.Executor.{
  ExecutorState, FutureOps, is_finished, new, schedule, spawn, close, drop_task, drop_executor, run,
  process_tasks,
}
use eneste_rs.Executor.Invariant.{
  count, count-append, Inv, new-Inv, schedule-Inv, spawn-Inv, close-Inv, outside-Inv,
}
use eneste_rs.Executor.Closed.{closed-Calls}
use eneste_rs.Executor.Calls.{
  Calls, nothing, FutureLaws, Calls-Inv, Calls-Grows, drop_task-Calls, drop_slots-Calls,
  schedule-Grows,
}
use eneste_rs.Executor.Run.{process_tasks-Inv, process_tasks-Grows}

module _ {W F : Type 0} (ops : FutureOps W F) (laws : FutureLaws ops) where
  -- One call from outside of a poll: a waker, from any thread, a handle, or the owner of the executor;
  -- or the rest of the program changes what it shares with the futures.
  pub data Step (e : ExecutorState W F) : ExecutorState W F → Type 0 where
    wakes_task : (id : ℕ) → id < e.next_id → Step e (schedule id e)
    spawns : (f : F) → e.next_id + 1 < 2 ^ 64 → e.closed ≡ false → Step e (spawn f e).0
    cancels : (id : ℕ) → id < e.next_id → Step e (drop_task ops (some id) e)
    processes : (n : ℕ) → Step e (process_tasks ops n e)
    closes : Step e (drop_executor ops e)
    acts : (w : W) → Step e (record e { outside = w })

  drop_executor-Calls : (e : ExecutorState W F) → Calls (close e) (drop_executor ops e)
  unfolding drop_executor
  drop_executor-Calls e = drop_slots-Calls ops laws e.next_id e.slots (close e)

  drop_executor-Inv : (e : ExecutorState W F) → Inv [] none e → Inv [] none (drop_executor ops e)
  drop_executor-Inv e v = Calls-Inv [] none (drop_executor-Calls e) (close-Inv none e v)

  pub data Reach : ExecutorState W F → Type 0 where
    created : (w : W) → Reach (new w)
    after : {e k : ExecutorState W F} → Reach e → Step e k → Reach k

  Step-Inv : {e k : ExecutorState W F} → Step e k → Inv [] none e → Inv [] none k
  Step-Inv {e} (wakes_task id lt) v = schedule-Inv [] none id e lt v
  Step-Inv {e} (spawns f lt on) v = spawn-Inv [] none f e lt on v
  Step-Inv {e} (cancels id lt) v = Calls-Inv [] none (drop_task-Calls ops laws nothing id lt) v
  Step-Inv {e} (processes n) v = process_tasks-Inv ops laws n e v
  Step-Inv {e} closes v = drop_executor-Inv e v
  Step-Inv {e} (acts w) v = outside-Inv [] none e w v

  pub Reach-Inv : {e : ExecutorState W F} → Reach e → Inv [] none e
  Reach-Inv (created w) = new-Inv w
  Reach-Inv (after r st) = Step-Inv st (Reach-Inv r)

  -- After every history of an executor that was not dropped, a task stands in the queue at most once; a
  -- task that is neither canceled nor completed stands there exactly when its `QUEUED` flag is set.
  pub queued_once :
      {e : ExecutorState W F} (id : ℕ)
      → Reach e
      → is_finished (e.headers id) ≡ false
      → e.closed ≡ false
      → (count id e.inbox ≤ 1) × (((e.headers id).queued ≡ true) ↔ (count id e.inbox ≡ 1))
  queued_once {e} id r u c =
      let v = Reach-Inv r id in
      (
        omega (arith, v.once),
        (
          λ q. omega (arith, v.waiting q u c),
          λ q. elim (Bool-cases (e.headers id).queued) [
            | inl p ↦ p
            | inr p ↦ absurd (omega (arith, v.flagged p))
          ],
        ),
      )

  -- A wake-up of a live task is never lost: after it the task stands in the queue, exactly once, and
  -- those that stood in the queue before keep their places.
  pub wake_is_kept :
      {e : ExecutorState W F} (id : ℕ)
      → Reach e
      → is_finished (e.headers id) ≡ false
      → e.closed ≡ false
      → (new : List ℕ) × ((schedule id e).inbox ≡ e.inbox ++ new)
        × (count id (schedule id e).inbox ≡ 1)
  unfolding schedule
  wake_is_kept {e} id r u c =
      let g = (schedule-Grows id e).behind in
      (g.0, g.1, ground (arith, Reach-Inv r id, count-append id e.inbox (id ∷ [])))

  -- A canceled or completed task has no future left, so that it is never polled again: a wake-up of it
  -- does nothing, and neither does running its header.
  pub finished_is_inert :
      {e : ExecutorState W F} (id : ℕ)
      → Reach e
      → is_finished (e.headers id) ≡ true
      → (e.slots id ≡ none) × (schedule id e ≡ e) × (run ops id e ≡ e)
  unfolding schedule run
  finished_is_inert {e} id r d = ((Reach-Inv r id).dead d, rw (schedule, d) refl, rw (run, d) refl)

  -- When the executor is dropped, every task that was spawned is canceled or completed, every future is
  -- out of its slot, the queue is empty, and no wake-up changes that, whatever the code does that runs
  -- when the futures are dropped.
  pub drop_executor_lem :
      {e : ExecutorState W F} (id : ℕ)
      → Reach e
      → id < e.next_id
      → e.closed ≡ false
      → (is_finished ((drop_executor ops e).headers id) ≡ true)
        × ((drop_executor ops e).slots id ≡ none)
        × ((drop_executor ops e).inbox ≡ [])
        × (schedule id (drop_executor ops e) ≡ drop_executor ops e)
  unfolding close schedule
  drop_executor_lem {e} id r lt c =
      let q = drop_executor-Calls e in
      let on = (Calls-Grows q).lives in
      let v = Reach-Inv r id in
      let over : is_finished ((close e).headers id) ≡ true =
        elim (Bool-cases (is_finished (e.headers id))) [
          | inl d ↦ ground (arith, v)
          | inr d ↦ ground (arith, v.owned d c lt)
        ] in
      let k = closed-Calls id q refl in
      (k.1 over, (drop_executor-Inv e (Reach-Inv r) id).gone on, k.0, ground (arith, k.1 over))

  -- `process_tasks n` takes the first `n` tasks out of the queue, or all if there are fewer: those behind
  -- them keep their places, and what is woken or spawned meanwhile stands behind those.
  pub waiting_keep_their_place :
      {e : ExecutorState W F} (n : ℕ)
      → Reach e
      → (ran : List ℕ) × (left : List ℕ) × (new : List ℕ) × (e.inbox ≡ ran ++ left)
        × (length ran ≡ min n (length e.inbox))
        × ((process_tasks ops n e).inbox ≡ left ++ new)
  waiting_keep_their_place {e} n r = process_tasks-Grows ops laws n e (Reach-Inv r)
