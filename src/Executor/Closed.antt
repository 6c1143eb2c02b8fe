-- ===== src/Executor/Closed.antt =====
-- Calls on an executor that is being dropped (src/executor.rs).
use eneste_rs.Prelude.{ℕ, ◌≡◌, refl, true, arith}
use eneste_rs.Executor.{ExecutorState, is_finished, schedule, cancel_task}
use eneste_rs.Executor.Calls.{Calls, nothing, wakes_task, spawns, cancels, acts, Calls-Grows}

-- On a closed executor calls queue nothing, and bring no task back.
pub closed-Calls :
    {W F : Type 0} {e k : ExecutorState W F} (id : ℕ)
    → Calls e k
    → e.closed ≡ true
    → (k.inbox ≡ e.inbox) × (is_finished (e.headers id) ≡ true → is_finished (k.headers id) ≡ true)
unfolding schedule cancel_task
closed-Calls id nothing c = (refl, λ h. h)
closed-Calls id (wakes_task {k} q i lt) c =
    let ih = closed-Calls id q c in
    let on = (Calls-Grows q).lives in
    (ground (arith, ih, on, c), λ h. ground (arith, ih.1 h, on, c))
closed-Calls id (spawns q f lt on) c = absurd (ground (arith, on, (Calls-Grows q).lives, c))
closed-Calls id (cancels {k} q i lt) c =
    let ih = closed-Calls id q c in (ground (arith, ih), λ h. ground (arith, ih.1 h))
closed-Calls id (acts q w) c = closed-Calls id q c
