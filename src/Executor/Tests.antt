-- ===== src/Executor/Tests.antt =====
-- Two small futures on an executor of src/executor.rs, and the theorems at the states of their run.
use eneste_rs.Prelude.{
  ℕ, ◌≤◌, ◌<◌, ◌≡◌, ◌↔◌, refl, true, false, List, [], ◌∷◌, ◌++◌, none, some, arith, min, length,
  ltb, if◌then◌else◌, Bool-cases, inl, inr,
}
use eneste_rs.Executor.{
  ExecutorState, is_finished, new, schedule, spawn, drop_task, drop_executor, run, run_all,
  process_tasks, finish, has_tasks, detach, FutureOps, cancel_task, drop_left, drop_slot,
}
use eneste_rs.Event.{
  Poll, ready, pending, Inner, Notification, notify, notify_inner, notify_count, notify_loop,
}
use eneste_rs.Event.Map.{get}
use eneste_rs.Event.Listener.{waiting_entry}
use eneste_rs.Executor.Wakers.{wakers_of, wake_all, notified_is_queued}
use eneste_rs.Executor.Driving.{drive, block_on}
use eneste_rs.Executor.Run.{settled}
use eneste_rs.Executor.Invariant.{count}
use eneste_rs.Executor.Calls.{Calls, nothing, wakes_task as calls_wake, FutureLaws, drop_task-Calls}
use eneste_rs.Executor.Begin.{begun}
use eneste_rs.Executor.Serving.{reached, queued_task_is_polled}
use eneste_rs.Executor.System.{
  Reach, created, after, spawns, processes, queued_once, drop_executor_lem,
  waiting_keep_their_place,
}

-- A future that ends, that wakes itself before it waits, that only waits, that cancels itself, or that
-- holds the handle of another task, which its drop cancels.
data Script : Type 0 where
  ends : Script
  yields : Script → Script
  sleeps : Script → Script
  quits : Script → Script
  guards : ℕ → Script → Script

abbrev no_drop : FutureOps (Unit {0}) Script
no_drop = record { poll = λ f id e. (e, f, pending); drop_future = λ f e. e }

unfoldable drop_script : Script → ExecutorState (Unit {0}) Script → ExecutorState (Unit {0}) Script
drop_script ends e = e
drop_script (yields s) e = drop_script s e
drop_script (sleeps s) e = drop_script s e
drop_script (quits s) e = drop_script s e
drop_script (guards child s) e =
    let k = drop_script s e in if ltb child k.next_id then drop_task no_drop (some child) k else k

unfoldable poll_script :
    Script
    → ℕ
    → ExecutorState (Unit {0}) Script
    → ExecutorState (Unit {0}) Script × Script × Poll (Unit {0})
poll_script ends id e = (e, ends, ready tt)
poll_script (yields s) id e = (schedule id e, s, pending)
poll_script (sleeps s) id e = (e, s, pending)
poll_script (quits s) id e = (drop_task no_drop (some id) e, s, pending)
poll_script (guards child s) id e =
    let (k, left, answer) = poll_script s id e in (k, guards child left, answer)

abbrev scripts : FutureOps (Unit {0}) Script
scripts = record { poll = poll_script; drop_future = drop_script }

no_drop-Laws : FutureLaws no_drop
no_drop-Laws = record { poll_calls = λ f id e lt. nothing; drop_calls = λ f e. nothing }

drop_script-Calls : (s : Script) (e : ExecutorState (Unit {0}) Script) → Calls e (drop_script s e)
unfolding drop_script
drop_script-Calls ends e = nothing
drop_script-Calls (yields s) e = drop_script-Calls s e
drop_script-Calls (sleeps s) e = drop_script-Calls s e
drop_script-Calls (quits s) e = drop_script-Calls s e
drop_script-Calls (guards child s) e = elim (Bool-cases (ltb child (drop_script s e).next_id)) [
  | inl lt ↦
      rw lt
        (drop_task-Calls no_drop no_drop-Laws (drop_script-Calls s e) child (ground (arith, lt)))
  | inr ge ↦ rw ge (drop_script-Calls s e)
]

poll_script-Calls :
    (s : Script) (id : ℕ) (e : ExecutorState (Unit {0}) Script)
    → id < e.next_id
    → Calls e (poll_script s id e).0
unfolding poll_script
poll_script-Calls ends id e lt = nothing
poll_script-Calls (yields s) id e lt = calls_wake nothing id lt
poll_script-Calls (sleeps s) id e lt = nothing
poll_script-Calls (quits s) id e lt = drop_task-Calls no_drop no_drop-Laws nothing id lt
poll_script-Calls (guards child s) id e lt = poll_script-Calls s id e lt

scripts-Laws : FutureLaws scripts
scripts-Laws = record { poll_calls = poll_script-Calls; drop_calls = drop_script-Calls }

abbrev Run : Type 0
Run = (e : ExecutorState (Unit {0}) Script) × Reach scripts scripts-Laws e

-- Task 0 waits twice, task 1 ends at once.
spawned : Run
unfolding new spawn schedule
spawned = (
  _,
  after (after (created tt) (spawns (yields (sleeps ends)) (omega arith) refl))
      (spawns ends (omega arith) refl),
)

-- One round: task 0 is queued again, task 1 is done.
one_round : Run
unfolding spawned process_tasks run_all run finish drop_left drop_slot poll_script drop_script
one_round = (_, after spawned.1 (processes 2))

one_round_inbox : one_round.0.inbox ≡ 0 ∷ []
unfolding one_round
one_round_inbox = refl

-- Another round: task 0 sleeps.
two_rounds : Run
unfolding one_round
two_rounds = (_, after one_round.1 (processes 9))

two_rounds_inbox : two_rounds.0.inbox ≡ []
unfolding two_rounds
two_rounds_inbox = refl

queued_once_example :
    (count 0 one_round.0.inbox ≤ 1)
    × (((one_round.0.headers 0).queued ≡ true) ↔ (count 0 one_round.0.inbox ≡ 1))
unfolding one_round
queued_once_example = queued_once scripts scripts-Laws 0 one_round.1 refl refl

-- Task 0 sleeps on an event with its own waker, and the event is notified.
abbrev slept_on : Inner ℕ
slept_on = record {
  listeners = (4, waiting_entry (some 0)) ∷ [];
  next_id = 5;
  notified = 0;
  closed = false;
  woken = [];
}

abbrev one_value : Notification ℕ
one_value = record { count = 1; is_additional = false; tag = 9 }

notified_is_queued_example :
    (ws : List ℕ) × ((notify slept_on one_value).woken ≡ [] ++ ws)
    × (count 0 (wake_all ws two_rounds.0).inbox ≡ 1)
unfolding two_rounds get notify notify_inner notify_count notify_loop wakers_of
notified_is_queued_example =
    notified_is_queued scripts scripts-Laws slept_on one_value 4 0 two_rounds.1 refl refl
      (record { ordered = omega arith; counted = refl; few = omega arith; small = omega arith })
      (omega arith) (λ a p. ground arith) refl refl

-- The task that has ended is run and woken in vain.
finished_stays : (schedule 1 one_round.0 ≡ one_round.0) × (run scripts 1 one_round.0 ≡ one_round.0)
unfolding one_round schedule run
finished_stays = (refl, refl)

-- Task 1 stands behind task 0.
queued_task_is_polled_example :
    (f : Script) × (rest : List ℕ) × ((reached scripts scripts-Laws 2 (0 ∷ []) spawned.0).slots 1
      ≡ some (record { future = some f }))
    × (process_tasks scripts 2 spawned.0
        ≡ run_all scripts rest (
            settled scripts scripts-Laws 1
              (poll_script f 1 (begun 1 (reached scripts scripts-Laws 2 (0 ∷ []) spawned.0)))))
unfolding spawned run_all run finish drop_left drop_slot poll_script drop_script schedule
queued_task_is_polled_example =
    queued_task_is_polled scripts scripts-Laws 2 1 (0 ∷ []) [] spawned.1 refl refl (omega arith)
      refl

drop_executor_example :
    (is_finished ((drop_executor scripts one_round.0).headers 0) ≡ true)
    × ((drop_executor scripts one_round.0).slots 0 ≡ none)
    × ((drop_executor scripts one_round.0).inbox ≡ [])
    × (schedule 0 (drop_executor scripts one_round.0) ≡ drop_executor scripts one_round.0)
unfolding one_round
drop_executor_example = drop_executor_lem scripts scripts-Laws 0 one_round.1 (omega arith) refl

waiting_keep_their_place_example :
    (ran : List ℕ) × (left : List ℕ) × (new : List ℕ) × (spawned.0.inbox ≡ ran ++ left)
    × (length ran ≡ min 1 (length spawned.0.inbox))
    × ((process_tasks scripts 1 spawned.0).inbox ≡ left ++ new)
waiting_keep_their_place_example = waiting_keep_their_place scripts scripts-Laws 1 spawned.1

-- A future that yields once ends under `block_on`.
block_on_ends :
    (e : ExecutorState (Unit {0}) Script) × (block_on scripts 4 (yields ends) (new tt)
      ≡ some (e, true))
unfolding block_on drive has_tasks process_tasks run_all run finish drop_left drop_slot poll_script
    drop_script new spawn schedule
block_on_ends = (_, refl)

-- A task that cancels itself loses its future.
quitter_is_dropped : (process_tasks scripts 1 (spawn (quits ends) (new tt)).0).slots 0 ≡ none
unfolding process_tasks run_all run finish drop_left drop_slot poll_script drop_script new spawn
    schedule drop_task cancel_task
quitter_is_dropped = refl

detached_runs : drop_task scripts (detach (some 0)) one_round.0 ≡ one_round.0
unfolding detach drop_task cancel_task drop_slot
detached_runs = refl

-- Task 1 holds the handle of task 0. When it ends, its future is dropped, which cancels task 0.
guarded : ExecutorState (Unit {0}) Script
unfolding new spawn schedule process_tasks run_all run finish drop_left drop_slot poll_script
    drop_script drop_task cancel_task
guarded =
    process_tasks scripts 9 (spawn (guards 0 ends) (spawn (sleeps (sleeps ends)) (new tt)).0).0

child_is_canceled :
    ((guarded.headers 1).completed ≡ true)
    × ((guarded.headers 0).canceled ≡ true)
    × (guarded.slots 0 ≡ none)
unfolding guarded
child_is_canceled = (refl, refl, refl)
