-- ===== src/Executor.antt =====
-- src/executor.rs: the single-threaded executor. Headers are known by their ids, since ids are never
-- reused; the stores behind `Rc` and `Arc` are passed from call to call. Each method is one step, which
-- the inbox's spin lock and the executor's own thread give. What a future does when it is polled or
-- dropped is a parameter.
pub mod Driving
pub mod Invariant
pub mod Calls
pub mod Begin
pub mod Run
pub mod Closed
pub mod System
pub mod Serving
pub mod Blocking
pub mod Wakers
pub mod Threads
mod Tests
use eneste_rs.Event.{Poll, ready, pending}
use eneste_rs.Prelude.{
  ℕ, zero, suc, ◌+◌, ◌%◌, ◌^◌, min, Bool, true, false, not, ◌&&◌, ◌||◌, List, [], ◌∷◌, ◌++◌, Option,
  none, some, ◌==◌, if◌then◌else◌, is_some, length, update, usize_max,
}

-- `Header::state`: the flags `QUEUED`, `CANCELED` and `COMPLETED`
pub record Header : Type 0 where
  pub queued : Bool
  pub canceled : Bool
  pub completed : Bool

pub record Slot (F : Type 0) : Type 0 where
  pub future : Option F

-- `ExecutorState` with its `Shared`. `wakes` counts the calls of the notifier's `wake`. `outside` is what
-- the futures share with the rest of the program, which the executor does not touch.
pub record ExecutorState (W F : Type 0) : Type 0 where
  pub headers : ℕ → Header
  pub slots : ℕ → Option (Slot F)
  pub next_id : ℕ
  pub inbox : List ℕ
  pub closed : Bool
  pub wakes : ℕ
  pub outside : W

-- `Header::is_finished`
abbrev pub is_finished : Header → Bool
is_finished h = h.canceled || h.completed

abbrev pub new_header : Header
new_header = record { queued = false; canceled = false; completed = false }

-- `VecDeque::drain(..n)`: what it takes out, and what it leaves.
abbrev pub drain {ℓ} : {A : Type ℓ} → ℕ → List A → List A × List A
drain zero xs = ([], xs)
drain (suc n) [] = ([], [])
drain (suc n) (x ∷ xs) = let (taken, left) = drain n xs in (x ∷ taken, left)

-- `Task::detach`
unfoldable pub detach : Option ℕ → Option ℕ
detach task = none

module _ {W F : Type 0} where
  abbrev pub set_header : ℕ → Header → ExecutorState W F → ExecutorState W F
  set_header id h e = record e { headers = update e.headers id h }

  abbrev pub set_slot : ℕ → Option (Slot F) → ExecutorState W F → ExecutorState W F
  set_slot id s e = record e { slots = update e.slots id s }

  -- `Executor::new`
  unfoldable pub new : W → ExecutorState W F
  new outside = record {
    headers = λ id. new_header;
    slots = λ id. none;
    next_id = 0;
    inbox = [];
    closed = false;
    wakes = 0;
    outside = outside;
  }

  -- `Header::schedule`, which is what a task's waker does
  unfoldable pub schedule : ℕ → ExecutorState W F → ExecutorState W F
  schedule id e =
      let h = e.headers id in
      if is_finished h || e.closed
      then e
      else if h.queued
      then e
      else record (set_header id (record h { queued = true }) e) {
        inbox = e.inbox ++ id ∷ [];
        wakes = e.wakes + 1;
      }

  -- `Executor::spawn`
  unfoldable pub spawn : F → ExecutorState W F → ExecutorState W F × ℕ
  spawn f e =
      let id = e.next_id in
      let numbered = record e { next_id = (id + 1) % 2 ^ 64 } in
      let headed = set_header id new_header numbered in
      (schedule id (set_slot id (some (record { future = some f })) headed), id)

  -- The part of `ExcutorTask::drop` before the slot is dropped. The weak handle of the state can be
  -- upgraded until the state is dropped.
  unfoldable pub cancel_task : Option ℕ → ExecutorState W F → ExecutorState W F × Option (Slot F)
  cancel_task none e = (e, none)
  cancel_task (some id) e =
      let h = e.headers id in
      let canceled = set_header id (record h { canceled = true }) e in
      if is_finished h
      then (canceled, none)
      else if e.closed
      then (canceled, none)
      else (set_slot id none canceled, e.slots id)

  -- The part of `ExecutorState::drop` before the slots are dropped
  unfoldable pub close : ExecutorState W F → ExecutorState W F
  close e = record e {
    closed = true;
    inbox = [];
    slots = λ id. none;
    headers = λ id.
        if is_some (e.slots id) then record (e.headers id) { canceled = true } else e.headers id;
  }

  unfoldable pub has_tasks : ExecutorState W F → Bool
  has_tasks e = not (length e.inbox == 0)

  -- The part of `Executor::run` after the poll, with what it drops: a slot, and a future.
  unfoldable pub finish :
      ℕ → F → Poll (Unit {0}) → ExecutorState W F → ExecutorState W F × Option (Slot F) × Option F
  finish id f (ready u) e =
      let completed = set_header id (record (e.headers id) { completed = true }) e in
      (set_slot id none completed, e.slots id, some f)
  finish id f pending e = elim (e.slots id) [
    | none ↦ (e, none, some f)
    | some slot ↦
        if is_finished (e.headers id)
        then (e, none, some f)
        else (set_slot id (some (record { future = some f })) e, none, none)
  ]

-- The futures of an executor, which its user gives: a poll under the waker of the future's header, and
-- the code that runs when the future is dropped. Both may call the executor.
pub record FutureOps (W F : Type 0) : Type 0 where
  pub poll : F → ℕ → ExecutorState W F → ExecutorState W F × F × Poll (Unit {0})
  pub drop_future : F → ExecutorState W F → ExecutorState W F

module _ {W F : Type 0} (ops : FutureOps W F) where
  -- The drop of an `Option` of a future, and of a slot
  unfoldable pub drop_left : Option F → ExecutorState W F → ExecutorState W F
  drop_left none e = e
  drop_left (some f) e = ops.drop_future f e

  unfoldable pub drop_slot : Option (Slot F) → ExecutorState W F → ExecutorState W F
  unfolding drop_left
  drop_slot none e = e
  drop_slot (some s) e = drop_left s.future e

  -- `ExcutorTask::drop`
  unfoldable pub drop_task : Option ℕ → ExecutorState W F → ExecutorState W F
  unfolding cancel_task drop_slot
  drop_task task e = let (k, slot) = cancel_task task e in drop_slot slot k

  -- The slots below `n`, in the order of their ids
  unfoldable pub drop_slots : ℕ → (ℕ → Option (Slot F)) → ExecutorState W F → ExecutorState W F
  unfolding drop_slot
  drop_slots zero slots e = e
  drop_slots (suc n) slots e = drop_slot (slots n) (drop_slots n slots e)

  -- `ExecutorState::drop`
  unfoldable pub drop_executor : ExecutorState W F → ExecutorState W F
  unfolding close drop_slots
  drop_executor e = drop_slots e.next_id e.slots (close e)

  -- `Executor::run`
  unfoldable pub run : ℕ → ExecutorState W F → ExecutorState W F
  unfolding finish drop_left drop_slot
  run id e =
      let h = e.headers id in
      let dequeued = set_header id (record h { queued = false }) e in
      if is_finished h then e else elim (e.slots id) [
        | none ↦ dequeued
        | some slot ↦ elim slot.future [
          | none ↦ dequeued
          | some f ↦
              let (after, future, answer) =
                ops.poll f id (set_slot id (some (record { future = none })) dequeued) in
              let (k, old, left) = finish id future answer after in drop_left left (drop_slot old k)
        ]
      ]

  unfoldable pub run_all : List ℕ → ExecutorState W F → ExecutorState W F
  run_all [] e = e
  run_all (id ∷ rest) e = run_all rest (run id e)

  -- `Executor::process_tasks`
  unfoldable pub process_tasks : ℕ → ExecutorState W F → ExecutorState W F
  process_tasks count e =
      let (tasks_to_run, left) = drain (min count (length e.inbox)) e.inbox in
      run_all tasks_to_run (record e { inbox = left })
