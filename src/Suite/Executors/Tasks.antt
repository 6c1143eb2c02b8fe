-- ===== src/Suite/Executors/Tasks.antt =====
-- The unit tests of tasks and their handles in src/executor.rs.
use eneste_rs.Prelude.{true, false, List, [], ◌∷◌, ◌≡◌, refl}
use eneste_rs.Executor.{
  new, schedule, spawn, has_tasks, drop_task, drop_executor, process_tasks, cancel_task, close,
  finish, drop_left, drop_slot, drop_slots, run as run_task, run_all,
}
use eneste_rs.Executor.Driving.{tick, drive, block_on}
use eneste_rs.Suite.{run as run_script, bool_eq, list_eq, all_pass}
use eneste_rs.Suite.Executors.{
  Script, program, guarded, process_all, ends, adds, logs, yields, waits, touch, set, add,
  drop_guard, dropping, wake_slot, poll_code, poll_program, programs, spawn_to, detached,
  drops_handle, processes, tasks, queue_len, woken, sets, counter, outputs, wakes_by_ref, has_waker,
  drives, act, passes,
}

abbrev spawn_schedules_task_and_wakes_event_loop : Script
spawn_schedules_task_and_wakes_event_loop =
    detached (program ends) ∷ woken 1 ∷ tasks true ∷ processes 1 ∷ tasks false ∷ []

abbrev process_tasks_respects_count_limit : Script
process_tasks_respects_count_limit =
    detached (program (logs 1 ends))
    ∷ detached (program (logs 2 ends))
    ∷ processes 1
    ∷ outputs (1 ∷ [])
    ∷ tasks true
    ∷ processes 1
    ∷ outputs (1 ∷ 2 ∷ [])
    ∷ tasks false
    ∷ []

abbrev tasks_run_in_spawn_order : Script
tasks_run_in_spawn_order =
    detached (program (logs 1 ends))
    ∷ detached (program (logs 2 ends))
    ∷ detached (program (logs 3 ends))
    ∷ processes 3
    ∷ outputs (1 ∷ 2 ∷ 3 ∷ [])
    ∷ []

abbrev spawn_does_not_poll_eagerly : Script
spawn_does_not_poll_eagerly =
    detached (program (adds 1 1 ends)) ∷ counter 1 0 ∷ process_all ∷ counter 1 1 ∷ []

abbrev new_executor_has_no_tasks : Script
new_executor_has_no_tasks = tasks false ∷ woken 0 ∷ process_all ∷ tasks false ∷ []

abbrev process_tasks_with_zero_count_does_nothing : Script
process_tasks_with_zero_count_does_nothing =
    detached (program (adds 1 1 ends)) ∷ processes 0 ∷ counter 1 0 ∷ tasks true ∷ []

abbrev process_tasks_with_count_above_queue_len_runs_everything : Script
process_tasks_with_count_above_queue_len_runs_everything =
    detached (program (adds 1 1 ends))
    ∷ detached (program (adds 1 1 ends))
    ∷ detached (program (adds 1 1 ends))
    ∷ processes 10
    ∷ counter 1 3
    ∷ tasks false
    ∷ []

abbrev each_spawn_wakes_event_loop_once : Script
each_spawn_wakes_event_loop_once =
    detached (program ends)
    ∷ woken 1
    ∷ detached (program ends)
    ∷ woken 2
    ∷ detached (program ends)
    ∷ woken 3
    ∷ detached (program ends)
    ∷ woken 4
    ∷ detached (program ends)
    ∷ woken 5
    ∷ queue_len 5
    ∷ []

-- The flag 1 is `ran`, and 2 is `dropped`.
abbrev dropping_handle_before_poll_cancels_task : Script
dropping_handle_before_poll_cancels_task =
    spawn_to 1 (guarded 2 (adds 1 1 ends))
    ∷ drops_handle 1
    ∷ counter 2 1
    ∷ process_all
    ∷ counter 1 0
    ∷ tasks false
    ∷ []

abbrev dropping_handle_of_pending_task_drops_future : Script
dropping_handle_of_pending_task_drops_future =
    spawn_to 1 (guarded 2 (waits 1 1 ends))
    ∷ process_all
    ∷ counter 2 0
    ∷ has_waker 1 true
    ∷ drops_handle 1
    ∷ counter 2 1
    ∷ sets 1 1
    ∷ wakes_by_ref 1
    ∷ tasks false
    ∷ []

abbrev detached_task_keeps_running_after_handle_is_gone : Script
detached_task_keeps_running_after_handle_is_gone =
    detached (program (waits 1 1 (adds 2 1 ends)))
    ∷ process_all
    ∷ counter 2 0
    ∷ sets 1 1
    ∷ wakes_by_ref 1
    ∷ tasks true
    ∷ process_all
    ∷ counter 2 1
    ∷ []

abbrev held_handle_keeps_task_alive : Script
held_handle_keeps_task_alive =
    spawn_to 1 (program (adds 1 1 (yields (adds 1 1 (yields (adds 1 1 (yields ends)))))))
    ∷ drives
    ∷ counter 1 3
    ∷ drops_handle 1
    ∷ []

abbrev future_is_dropped_on_completion : Script
future_is_dropped_on_completion =
    spawn_to 1 (guarded 2 ends) ∷ process_all ∷ counter 2 1 ∷ drops_handle 1 ∷ []

abbrev scripts : List Script
scripts =
    spawn_schedules_task_and_wakes_event_loop ∷ process_tasks_respects_count_limit
    ∷ tasks_run_in_spawn_order ∷ spawn_does_not_poll_eagerly ∷ new_executor_has_no_tasks
    ∷ process_tasks_with_zero_count_does_nothing
    ∷ process_tasks_with_count_above_queue_len_runs_everything ∷ each_spawn_wakes_event_loop_once
    ∷ dropping_handle_before_poll_cancels_task ∷ dropping_handle_of_pending_task_drops_future
    ∷ detached_task_keeps_running_after_handle_is_gone ∷ held_handle_keeps_task_alive
    ∷ future_is_dropped_on_completion ∷ []

tasks_pass : all_pass passes scripts ≡ true
unfolding all_pass passes run_script act bool_eq list_eq touch set add drop_guard dropping wake_slot
    poll_code poll_program programs new schedule spawn has_tasks drop_task drop_executor
    process_tasks cancel_task close finish drop_left drop_slot drop_slots run_task run_all tick
    drive block_on
tasks_pass = refl
