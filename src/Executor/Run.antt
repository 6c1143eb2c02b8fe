-- ===== src/Executor/Run.antt =====
-- src/executor.rs: `run` and `process_tasks`, with futures whose polls and drops wake, spawn and cancel tasks.
use eneste_rs.Prelude.{
  ℕ, ◌+◌, ◌≤◌, ◌<◌, ◌≡◌, refl, sym, ap, false, List, [], ◌∷◌, ◌++◌, none, some, arith, min, length,
  Bool-cases, Option-cases, inl, inr, subst, ◌∙◌, append-nil,
}
use eneste_rs.Event.{Poll}
use eneste_rs.Executor.{
  Slot, ExecutorState, is_finished, finish, drain, FutureOps, drop_left, drop_slot, run, run_all,
  process_tasks,
}
use eneste_rs.Executor.Invariant.{count, count-append, Inv, finish-Inv}
use eneste_rs.Executor.Calls.{
  Calls, Calls-trans, FutureLaws, drop_left-Calls, drop_slot-Calls, Grows, Grows-refl, Grows-trans,
  Calls-Inv, Calls-Grows, finish-Grows,
}
use eneste_rs.Executor.Begin.{
  dequeued, begun, finished-Inv, dequeued-Inv, begun-Inv, dequeued-Grows, begun-Grows, held_born,
  slot_has_future, drain-split, length-drain,
}

module _ {W F : Type 0} (ops : FutureOps W F) (laws : FutureLaws ops) where
  -- What `run` does with the outcome of the poll.
  abbrev pub settled : ℕ → ExecutorState W F × F × Poll (Unit {0}) → ExecutorState W F
  settled id (k, future, answer) =
      let done = finish id future answer k in drop_left ops done.2 (drop_slot ops done.1 done.0)

  settled-Calls :
      (id : ℕ) (x : ExecutorState W F × F × Poll (Unit {0}))
      → Calls (finish id x.1 x.2 x.0).0 (settled id x)
  settled-Calls id x =
      let done = finish id x.1 x.2 x.0 in
      Calls-trans (drop_slot-Calls ops laws done.1 done.0)
        (drop_left-Calls ops laws done.2 (drop_slot ops done.1 done.0))

  pub run_lem :
      (id : ℕ) (e : ExecutorState W F) (s : Slot F) (f : F)
      → is_finished (e.headers id) ≡ false
      → e.slots id ≡ some s
      → s.future ≡ some f
      → run ops id e ≡ settled id (ops.poll f id (begun id e))
  unfolding run
  run_lem id e s f u p q = rw (run, u, p, q) refl

  polled-Inv :
      (held : List ℕ) (i : ℕ) (e : ExecutorState W F) (f : F)
      → i < e.next_id
      → Inv held (some i) (begun i e)
      → Inv held none (settled i (ops.poll f i (begun i e)))
  polled-Inv held i e f lt v =
      let x = ops.poll f i (begun i e) in
      let c = laws.poll_calls f i (begun i e) lt in
      Calls-Inv held none (settled-Calls i x) (
        finish-Inv held i x.1 x.2 x.0 (omega (arith, (Calls-Grows c).ids))
          (Calls-Inv held (some i) c v))

  polled-Grows :
      (i : ℕ) (e : ExecutorState W F) (f : F)
      → i < e.next_id
      → Grows e (settled i (ops.poll f i (begun i e)))
  polled-Grows i e f lt =
      let x = ops.poll f i (begun i e) in
      let k = (finish i x.1 x.2 x.0).0 in
      Grows-trans e (begun i e) (settled i x) (begun-Grows i e) (
        Grows-trans (begun i e) x.0 (settled i x) (Calls-Grows (laws.poll_calls f i (begun i e) lt))
          (Grows-trans x.0 k (settled i x) (finish-Grows i x.1 x.2 x.0)
            (Calls-Grows (settled-Calls i x))))

  pub run-Inv :
      (held : List ℕ) (i : ℕ) (e : ExecutorState W F)
      → Inv (i ∷ held) none e
      → Inv held none (run ops i e)
  unfolding run
  run-Inv held i e v = elim (Bool-cases (is_finished (e.headers i))) [
    | inl d ↦
        let p : run ops i e ≡ e = rw (run, d) refl in
        subst (Inv held none) (sym p) (finished-Inv held i e d v)
    | inr u ↦ elim (Option-cases (e.slots i)) [
      | inl n ↦
          let p : run ops i e ≡ dequeued i e = rw (run, u, n) refl in
          subst (Inv held none) (sym p) (dequeued-Inv held i e v n)
      | inr (s, n) ↦ elim (Option-cases s.future) [
        | inl m ↦ absurd (slot_has_future i e (v i) u s n m)
        | inr (f, m) ↦
            subst (Inv held none) (sym (run_lem i e s f u n m))
              (polled-Inv held i e f (held_born held i e (v i)) (begun-Inv held i e s v u n))
      ]
    ]
  ]

  run-Grows : (i : ℕ) (e : ExecutorState W F) → i < e.next_id → Grows e (run ops i e)
  unfolding run
  run-Grows i e lt = elim (Bool-cases (is_finished (e.headers i))) [
    | inl d ↦ let p : run ops i e ≡ e = rw (run, d) refl in subst (Grows e) (sym p) (Grows-refl e)
    | inr u ↦ elim (Option-cases (e.slots i)) [
      | inl n ↦
          let p : run ops i e ≡ dequeued i e = rw (run, u, n) refl in
          subst (Grows e) (sym p) (dequeued-Grows i e)
      | inr (s, n) ↦ elim (Option-cases s.future) [
        | inl m ↦
            let p : run ops i e ≡ dequeued i e = rw (run, u, n, m) refl in
            subst (Grows e) (sym p) (dequeued-Grows i e)
        | inr (f, m) ↦ subst (Grows e) (sym (run_lem i e s f u n m)) (polled-Grows i e f lt)
      ]
    ]
  ]

  -- `held` are tasks that `process_tasks` runs after these.
  pub run_all-keeps :
      (tasks held : List ℕ) (e : ExecutorState W F)
      → Inv (tasks ++ held) none e
      → Inv held none (run_all ops tasks e) × Grows e (run_all ops tasks e)
  unfolding run_all
  run_all-keeps [] held e v = (v, Grows-refl e)
  run_all-keeps (i ∷ tasks) held e v =
      let ih = run_all-keeps tasks held (run ops i e) (run-Inv (tasks ++ held) i e v) in
      (
        ih.0,
        Grows-trans e (run ops i e) (run_all ops tasks (run ops i e))
            (run-Grows i e (held_born (tasks ++ held) i e (v i))) ih.1,
      )

  run_all-Inv :
      (tasks : List ℕ) (e : ExecutorState W F)
      → Inv tasks none e
      → Inv [] none (run_all ops tasks e)
  run_all-Inv tasks e v = (run_all-keeps tasks [] e (rw (append-nil tasks) v)).0

  run_all-Grows :
      (tasks : List ℕ) (e : ExecutorState W F) → Inv tasks none e → Grows e (run_all ops tasks e)
  run_all-Grows tasks e v = (run_all-keeps tasks [] e (rw (append-nil tasks) v)).1

  pub drained-Inv :
      (n : ℕ) (e : ExecutorState W F)
      → n ≤ length e.inbox
      → Inv [] none e
      → Inv (drain n e.inbox).0 none (record e { inbox = (drain n e.inbox).1 })
  drained-Inv n e h v id =
      let c : count id (drain n e.inbox).0 + count id (drain n e.inbox).1 ≡ count id e.inbox =
        sym (count-append id (drain n e.inbox).0 (drain n e.inbox).1)
        ∙ ap (count id) (drain-split n e.inbox h) in
      record {
        once = omega (arith, c, (v id).once);
        flagged = λ q. omega (arith, c, (v id).flagged q);
        waiting = λ q f o. omega (arith, c, (v id).waiting q f o);
        dead = (v id).dead;
        unborn = (v id).unborn;
        gone = (v id).gone;
        owned = (v id).owned;
      }

  pub process_tasks-Inv :
      (n : ℕ) (e : ExecutorState W F) → Inv [] none e → Inv [] none (process_tasks ops n e)
  unfolding process_tasks
  process_tasks-Inv n e v =
      let m = min n (length e.inbox) in
      run_all-Inv (drain m e.inbox).0 (record e { inbox = (drain m e.inbox).1 })
        (drained-Inv m e (omega arith) v)

  -- `process_tasks` as a drain of the front of the queue, and what its runs add behind the rest.
  pub process_tasks-Grows :
      (n : ℕ) (e : ExecutorState W F)
      → Inv [] none e
      → (ran : List ℕ) × (left : List ℕ) × (new : List ℕ) × (e.inbox ≡ ran ++ left)
        × (length ran ≡ min n (length e.inbox))
        × ((process_tasks ops n e).inbox ≡ left ++ new)
  unfolding process_tasks
  process_tasks-Grows n e v =
      let m = min n (length e.inbox) in
      let d = drain m e.inbox in
      let w = drained-Inv m e (omega arith) v in
      let g = (run_all-Grows d.0 (record e { inbox = d.1 }) w).behind in
      (
        d.0,
        d.1,
        g.0,
        sym (drain-split m e.inbox (omega arith)),
        length-drain m e.inbox (omega arith),
        g.1,
      )

  pub process_tasks-lives :
      (n : ℕ) (e : ExecutorState W F) → Inv [] none e → (process_tasks ops n e).closed ≡ e.closed
  unfolding process_tasks
  process_tasks-lives n e v =
      let m = min n (length e.inbox) in
      let d = drain m e.inbox in
      (run_all-Grows d.0 (record e { inbox = d.1 }) (drained-Inv m e (omega arith) v)).lives
