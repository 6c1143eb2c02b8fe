-- ===== src/Suite/Executors/Loops.antt =====
-- The unit tests of src/executor.rs on batches of tasks, `tick` and `block_on`.
use eneste_rs.Prelude.{true, false, List, [], ◌∷◌, ◌≡◌, refl}
use eneste_rs.Executor.{
  new, schedule, spawn, has_tasks, drop_task, drop_executor, process_tasks, cancel_task, close,
  finish, drop_left, drop_slot, drop_slots, run as run_task, run_all,
}
use eneste_rs.Executor.Driving.{tick, drive, block_on}
use eneste_rs.Suite.{run as run_script, bool_eq, list_eq, all_pass}
use eneste_rs.Suite.Executors.{
  Script, program, guarded, process_all, ends, adds, logs, yields, waits, wakes, spawns,
  takes_handle, touch, set, add, drop_guard, dropping, wake_slot, poll_code, poll_program, programs,
  spawn_to, detached, no_handle, tasks, woken, counter, outputs, ticks, drives, blocks_on,
  drops_executor, act, passes,
}

-- "a1", "a2" and "b1" are 11, 12 and 21.
abbrev yielding_task_is_requeued_for_next_batch : Script
yielding_task_is_requeued_for_next_batch =
    detached (program (logs 11 (yields (logs 12 ends))))
    ∷ detached (program (logs 21 ends))
    ∷ process_all
    ∷ outputs (11 ∷ 21 ∷ [])
    ∷ tasks true
    ∷ process_all
    ∷ outputs (11 ∷ 21 ∷ 12 ∷ [])
    ∷ tasks false
    ∷ []

-- The pair of task `id` and step `step` is 10 * id + step.
abbrev yielding_tasks_interleave_round_robin : Script
yielding_tasks_interleave_round_robin =
    detached (program (logs 0 (yields (logs 1 (yields (logs 2 (yields ends)))))))
    ∷ detached (program (logs 10 (yields (logs 11 (yields (logs 12 (yields ends)))))))
    ∷ detached (program (logs 20 (yields (logs 21 (yields (logs 22 (yields ends)))))))
    ∷ drives
    ∷ outputs (0 ∷ 10 ∷ 20 ∷ 1 ∷ 11 ∷ 21 ∷ 2 ∷ 12 ∷ 22 ∷ [])
    ∷ []

-- "outer" is 1, and "inner" is 2.
abbrev task_spawned_while_processing_runs_in_next_batch : Script
task_spawned_while_processing_runs_in_next_batch =
    detached (program (logs 1 (spawns (logs 2 ends) ends)))
    ∷ process_all
    ∷ outputs (1 ∷ [])
    ∷ tasks true
    ∷ process_all
    ∷ outputs (1 ∷ 2 ∷ [])
    ∷ []

abbrev cancelling_queued_task_from_another_task_skips_it : Script
cancelling_queued_task_from_another_task_skips_it =
    detached (program (takes_handle 1 ends))
    ∷ spawn_to 1 (program (adds 1 1 ends))
    ∷ process_all
    ∷ counter 1 0
    ∷ no_handle 1
    ∷ tasks false
    ∷ []

-- The flag 3 is `after_cancel`.
abbrev task_can_cancel_itself_while_running : Script
task_can_cancel_itself_while_running =
    spawn_to 1 (guarded 2 (takes_handle 1 (yields (adds 3 1 ends))))
    ∷ process_all
    ∷ counter 2 1
    ∷ tasks false
    ∷ counter 3 0
    ∷ []

-- The clones of an executor are one state.
abbrev cloned_executors_share_the_queue : Script
cloned_executors_share_the_queue =
    detached (program (adds 1 1 ends))
    ∷ tasks true
    ∷ process_all
    ∷ counter 1 1
    ∷ tasks false
    ∷ woken 1
    ∷ []

abbrev tick_reports_whether_work_was_done : Script
tick_reports_whether_work_was_done =
    ticks false
    ∷ detached (program (adds 1 1 (yields (adds 1 1 ends))))
    ∷ ticks true
    ∷ counter 1 1
    ∷ ticks true
    ∷ counter 1 2
    ∷ ticks false
    ∷ []

abbrev block_on_runs_future_to_completion : Script
block_on_runs_future_to_completion =
    blocks_on
      (program (
        adds 1 1 (
          yields
            (adds 1 1 (yields (adds 1 1 (yields (adds 1 1 (yields (adds 1 1 (yields ends)))))))))))
      true
    ∷ counter 1 5
    ∷ tasks false
    ∷ []

abbrev block_on_drives_nested_spawns : Script
block_on_drives_nested_spawns =
    blocks_on
      (program (
        spawns (yields (logs 0 ends))
          (spawns (yields (logs 1 ends)) (spawns (yields (logs 2 ends)) ends))))
      true
    ∷ outputs (0 ∷ 1 ∷ 2 ∷ [])
    ∷ tasks false
    ∷ []

-- "before" is 1, and "block_on" is 2.
abbrev block_on_also_drives_previously_spawned_tasks : Script
block_on_also_drives_previously_spawned_tasks =
    detached (program (logs 1 ends))
    ∷ blocks_on (program (logs 2 ends)) true
    ∷ outputs (1 ∷ 2 ∷ [])
    ∷ []

-- The output of the future is its last write to a counter, here and below, where "done" is 5.
abbrev block_on_returns_future_output : Script
block_on_returns_future_output =
    blocks_on (program (yields (adds 1 42 ends))) true ∷ counter 1 42 ∷ []

abbrev block_on_waits_for_wake_from_another_task : Script
block_on_waits_for_wake_from_another_task =
    detached (program (yields (adds 1 1 (wakes 1 ends))))
    ∷ blocks_on (program (waits 1 1 (adds 4 5 ends))) true
    ∷ counter 4 5
    ∷ tasks false
    ∷ []

abbrev block_on_panics_when_future_can_never_complete : Script
block_on_panics_when_future_can_never_complete = blocks_on (program (waits 1 1 ends)) false ∷ []

-- `values` is the output, and `total` is counter 1.
abbrev executor_can_run_futures_borrowing_local_data : Script
executor_can_run_futures_borrowing_local_data =
    blocks_on
      (program (
        logs 1 (
          adds 1 1 (
            yields (
              logs 2 (
                adds 1 2
                  (yields (logs 3 (adds 1 3 (yields (logs 4 (adds 1 4 (yields ends)))))))))))))
      true
    ∷ drops_executor
    ∷ outputs (1 ∷ 2 ∷ 3 ∷ 4 ∷ [])
    ∷ counter 1 10
    ∷ []

abbrev scripts : List Script
scripts =
    yielding_task_is_requeued_for_next_batch ∷ yielding_tasks_interleave_round_robin
    ∷ task_spawned_while_processing_runs_in_next_batch
    ∷ cancelling_queued_task_from_another_task_skips_it ∷ task_can_cancel_itself_while_running
    ∷ cloned_executors_share_the_queue ∷ tick_reports_whether_work_was_done
    ∷ block_on_runs_future_to_completion ∷ block_on_drives_nested_spawns
    ∷ block_on_also_drives_previously_spawned_tasks ∷ block_on_returns_future_output
    ∷ block_on_waits_for_wake_from_another_task ∷ block_on_panics_when_future_can_never_complete
    ∷ executor_can_run_futures_borrowing_local_data ∷ []

loops_pass : all_pass passes scripts ≡ true
unfolding all_pass passes run_script act bool_eq list_eq touch set add drop_guard dropping wake_slot
    poll_code poll_program programs new schedule spawn has_tasks drop_task drop_executor
    process_tasks cancel_task close finish drop_left drop_slot drop_slots run_task run_all tick
    drive block_on
loops_pass = refl
