-- ===== src/Executor/Driving.antt =====
-- src/executor.rs: the loops that drive an executor, `block_on` and `tick`.
use eneste_rs.Prelude.{
  ℕ, zero, suc, Bool, true, false, Option, none, some, if◌then◌else◌, usize_max,
}
use eneste_rs.Executor.{ExecutorState, FutureOps, spawn, has_tasks, process_tasks}

module _ {W F : Type 0} (ops : FutureOps W F) where
  -- `DriverableSpawner::tick`
  unfoldable pub tick : ExecutorState W F → ExecutorState W F × Bool
  tick e = if has_tasks e then (process_tasks ops usize_max e, true) else (e, false)

  -- The loop of `Executor::block_on`; `none` when the fuel runs out.
  unfoldable pub drive : ℕ → ExecutorState W F → Option (ExecutorState W F)
  drive zero e = none
  drive (suc fuel) e =
      let rest = drive fuel (process_tasks ops usize_max e) in if has_tasks e then rest else some e

  -- `Executor::block_on`: the future with its write to `output` is the spawned task, so that `output` is
  -- there when the task is completed. `false` is the panic.
  unfoldable pub block_on : ℕ → F → ExecutorState W F → Option (ExecutorState W F × Bool)
  block_on fuel f e =
      let (spawned, id) = spawn f e in
      elim (drive fuel spawned) [
        | none ↦ none
        | some done ↦ some (done, (done.headers id).completed)
      ]
