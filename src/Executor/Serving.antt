-- ===== src/Executor/Serving.antt =====
-- src/executor.rs: which tasks `process_tasks` polls, and when.
use eneste_rs.Prelude.{
  ℕ, zero, suc, ◌<◌, ◌≡◌, refl, ap, ◌∙◌, false, List, [], ◌∷◌, ◌++◌, none, some, arith, min, length,
  Option-cases, inl, inr, subst, sym, length-append,
}
use eneste_rs.Executor.{ExecutorState, is_finished, drain, FutureOps, run, run_all, process_tasks}
use eneste_rs.Executor.Invariant.{Inv}
use eneste_rs.Executor.Calls.{FutureLaws}
use eneste_rs.Executor.Begin.{begun, held_born, slot_has_future}
use eneste_rs.Executor.Run.{settled, run_lem, run_all-keeps, drained-Inv}
use eneste_rs.Executor.System.{Reach, Reach-Inv}

-- A drain that reaches an item takes it, and what stands before it.
drain-reaches :
    (n i : ℕ) (before behind : List ℕ)
    → length before < n
    → (rest : List ℕ) × ((drain n (before ++ i ∷ behind)).0 ≡ before ++ i ∷ rest)
drain-reaches zero i before behind h = absurd (omega arith)
drain-reaches (suc n) i [] behind h = ((drain n behind).0, refl)
drain-reaches (suc n) i (x ∷ before) behind h =
    let r = drain-reaches n i before behind (omega (arith, h)) in (r.0, ground (arith, r.1))

drain-takes :
    (n i : ℕ) (xs before behind : List ℕ)
    → xs ≡ before ++ i ∷ behind
    → length before < n
    → (rest : List ℕ) × ((drain (min n (length xs)) xs).0 ≡ before ++ i ∷ rest)
drain-takes n i xs before behind q h =
    let ys = before ++ i ∷ behind in
    subst (λ zs. (rest : List ℕ) × ((drain (min n (length zs)) zs).0 ≡ before ++ i ∷ rest)) (sym q)
      (drain-reaches (min n (length ys)) i before behind
        (omega (arith, h, length-append before (i ∷ behind))))

module _ {W F : Type 0} (ops : FutureOps W F) (laws : FutureLaws ops) where
  run_all-append :
      (xs ys : List ℕ) (e : ExecutorState W F)
      → run_all ops (xs ++ ys) e ≡ run_all ops ys (run_all ops xs e)
  unfolding run_all
  run_all-append [] ys e = refl
  run_all-append (x ∷ xs) ys e = run_all-append xs ys (run ops x e)

  -- The state in which `process_tasks n` comes to the task behind the tasks `before`.
  abbrev pub reached : ℕ → List ℕ → ExecutorState W F → ExecutorState W F
  reached n before e =
      run_all ops before (record e { inbox = (drain (min n (length e.inbox)) e.inbox).1 })

  -- A task that stands in the queue behind fewer than `n` others is polled by `process_tasks n`, unless
  -- it is canceled or completed when its turn comes: the executor still owns its future then, and the
  -- call goes on from what the poll leaves.
  pub queued_task_is_polled :
      {e : ExecutorState W F} (n id : ℕ) (before behind : List ℕ)
      → Reach ops laws e
      → e.closed ≡ false
      → e.inbox ≡ before ++ id ∷ behind
      → length before < n
      → is_finished ((reached n before e).headers id) ≡ false
      → (f : F) × (rest : List ℕ) × ((reached n before e).slots id
          ≡ some (record { future = some f }))
        × (process_tasks ops n e
            ≡ run_all ops rest
                (settled ops laws id (ops.poll f id (begun id (reached n before e)))))
  unfolding process_tasks run_all
  queued_task_is_polled {e} n id before behind r c q h u =
      let m = min n (length e.inbox) in
      let d = drain-takes n id e.inbox before behind q h in
      let taken : (drain m e.inbox).0 ≡ before ++ id ∷ d.0 = d.1 in
      let start = record e { inbox = (drain m e.inbox).1 } in
      let v = drained-Inv ops laws m e (omega arith) (Reach-Inv ops laws r) in
      let k =
        run_all-keeps ops laws before (id ∷ d.0) start (subst (λ xs. Inv xs none start) taken v) in
      let now = reached n before e in
      let own = (k.0 id).owned u (k.1.lives ∙ c) (held_born d.0 id now (k.0 id)) in
      elim (Option-cases own.0.future) [
        | inl p ↦ absurd (slot_has_future id now (k.0 id) u own.0 own.1 p)
        | inr (f, p) ↦ (
          f,
          d.0,
          ground (arith, own.1, p),
          ap (λ xs. run_all ops xs start) taken
              ∙ run_all-append before (id ∷ d.0) start
              ∙ ap (run_all ops d.0) (run_lem ops laws id now own.0 f u own.1 p),
        )
      ]
