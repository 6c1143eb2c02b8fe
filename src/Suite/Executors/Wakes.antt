-- ===== src/Suite/Executors/Wakes.antt =====
-- The unit tests of wakers, and of the drop of the executor, in src/executor.rs.
use eneste_rs.Prelude.{true, false, List, [], ◌∷◌, ◌≡◌, refl}
use eneste_rs.Executor.{
  new, schedule, spawn, has_tasks, drop_task, drop_executor, process_tasks, cancel_task, close,
  finish, drop_left, drop_slot, drop_slots, run as run_task, run_all,
}
use eneste_rs.Executor.Driving.{tick, drive, block_on}
use eneste_rs.Suite.{run as run_script, bool_eq, list_eq, all_pass}
use eneste_rs.Suite.Executors.{
  Script, program, guarded, process_all, ends, adds, waits, watches, never, keeps_waker, writes,
  touch, set, add, drop_guard, dropping, wake_slot, poll_code, poll_program, programs, spawn_to,
  detached, drops_handle, tasks, queue_len, woken, counter, outputs, says, wakes_by_ref,
  drops_executor, act, passes,
}

-- Waking a clone of a waker is waking it.
abbrev multiple_wakes_before_poll_queue_task_once : Script
multiple_wakes_before_poll_queue_task_once =
    detached (program (watches 3 1 1))
    ∷ process_all
    ∷ counter 3 1
    ∷ woken 1
    ∷ wakes_by_ref 1
    ∷ wakes_by_ref 1
    ∷ wakes_by_ref 1
    ∷ queue_len 1
    ∷ woken 2
    ∷ process_all
    ∷ counter 3 2
    ∷ tasks false
    ∷ []

abbrev waking_completed_task_is_ignored : Script
waking_completed_task_is_ignored =
    detached (program (keeps_waker 1 ends))
    ∷ process_all
    ∷ woken 1
    ∷ wakes_by_ref 1
    ∷ wakes_by_ref 1
    ∷ tasks false
    ∷ woken 1
    ∷ []

abbrev waker_outliving_executor_is_harmless : Script
waker_outliving_executor_is_harmless =
    detached (program (waits 1 1 ends))
    ∷ process_all
    ∷ drops_executor
    ∷ wakes_by_ref 1
    ∷ wakes_by_ref 1
    ∷ []

abbrev dropping_executor_releases_queued_futures : Script
dropping_executor_releases_queued_futures =
    detached (guarded 2 ends) ∷ tasks true ∷ drops_executor ∷ counter 2 1 ∷ []

abbrev dropping_executor_releases_pending_futures_even_with_live_wakers : Script
dropping_executor_releases_pending_futures_even_with_live_wakers =
    detached (guarded 2 (waits 1 1 ends))
    ∷ process_all
    ∷ counter 2 0
    ∷ drops_executor
    ∷ counter 2 1
    ∷ wakes_by_ref 1
    ∷ []

-- The drop of a waker is no call on the executor.
abbrev dropping_wakers_does_not_release_detached_task : Script
dropping_wakers_does_not_release_detached_task =
    detached (guarded 2 (waits 1 1 ends))
    ∷ process_all
    ∷ counter 2 0
    ∷ drops_executor
    ∷ counter 2 1
    ∷ []

-- "future dropped" is written as 2, and "executor dropping" as 1.
abbrev executor_drops_borrowing_futures_before_borrowed_data : Script
executor_drops_borrowing_futures_before_borrowed_data =
    detached (record { code = waits 1 1 ends; guard = writes 2 })
    ∷ process_all
    ∷ says 1
    ∷ drops_executor
    ∷ outputs (1 ∷ 2 ∷ [])
    ∷ []

abbrev stale_queue_entry_after_cancel_is_never_polled : Script
stale_queue_entry_after_cancel_is_never_polled =
    spawn_to 1 (program (never 3))
    ∷ queue_len 1
    ∷ drops_handle 1
    ∷ queue_len 1
    ∷ process_all
    ∷ counter 3 0
    ∷ tasks false
    ∷ detached (program (adds 3 10 ends))
    ∷ process_all
    ∷ counter 3 10
    ∷ []

abbrev scripts : List Script
scripts =
    multiple_wakes_before_poll_queue_task_once ∷ waking_completed_task_is_ignored
    ∷ waker_outliving_executor_is_harmless ∷ dropping_executor_releases_queued_futures
    ∷ dropping_executor_releases_pending_futures_even_with_live_wakers
    ∷ dropping_wakers_does_not_release_detached_task
    ∷ executor_drops_borrowing_futures_before_borrowed_data
    ∷ stale_queue_entry_after_cancel_is_never_polled ∷ []

wakes_pass : all_pass passes scripts ≡ true
unfolding all_pass passes run_script act bool_eq list_eq touch set add drop_guard dropping wake_slot
    poll_code poll_program programs new schedule spawn has_tasks drop_task drop_executor
    process_tasks cancel_task close finish drop_left drop_slot drop_slots run_task run_all tick
    drive block_on
wakes_pass = refl
