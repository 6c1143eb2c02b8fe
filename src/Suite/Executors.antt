-- ===== src/Suite/Executors.antt =====
-- How the unit tests of src/executor.rs run: the futures of the tests as small programs, and calls on one
-- executor, its tasks and their wakers.
pub mod Tasks
pub mod Wakes
pub mod Loops
use eneste_rs.Prelude.{
  usize_max, ℕ, ◌+◌, Bool, true, false, not, List, [], ◌∷◌, ◌++◌, Option, none, some, ◌==◌, ◌≡◌,
  refl, ◌&&◌, if◌then◌else◌, update, length, is_some,
}
use eneste_rs.Event.{Poll, ready, pending}
use eneste_rs.Executor.{
  ExecutorState, FutureOps, new, schedule, spawn, has_tasks, drop_task, drop_executor,
  process_tasks,
}
use eneste_rs.Executor.Driving.{tick, drive, block_on}
use eneste_rs.Suite.{run as run_script, bool_eq, list_eq}

-- What the futures share with the tests: counters and flags, an output, the slots for wakers, and the
-- places for handles. A waker and a handle are the number of their task.
pub record World : Type 0 where
  pub counters : ℕ → ℕ
  pub output : List ℕ
  pub wakers : ℕ → Option ℕ
  pub handles : ℕ → Option ℕ

-- The code of a future. `yields` is an `await` of `YieldNow`, `waits r s` one of `WaitFor` with the flag
-- `r` and the slot `s`, `watches` a future that counts its polls, and `never` one that is never ready.
pub data Code : Type 0 where
  ends : Code
  adds : ℕ → ℕ → Code → Code
  logs : ℕ → Code → Code
  yields : Code → Code
  waits : ℕ → ℕ → Code → Code
  watches : ℕ → ℕ → ℕ → Code
  never : ℕ → Code
  keeps_waker : ℕ → Code → Code
  wakes : ℕ → Code → Code
  spawns : Code → Code → Code
  takes_handle : ℕ → Code → Code

-- `DropFlag` and `LogOnDrop`, which a future holds
pub data Guard : Type 0 where
  no_guard : Guard
  flags : ℕ → Guard
  writes : ℕ → Guard

pub record Program : Type 0 where
  pub code : Code
  pub guard : Guard

abbrev State : Type 0
State = ExecutorState World Program

unfoldable pub touch : (World → World) → State → State
touch change e = record e { outside = change e.outside }

unfoldable pub set : ℕ → ℕ → World → World
set c n w = record w { counters = update w.counters c n }

unfoldable pub add : ℕ → ℕ → World → World
add c n w = set c (w.counters c + n) w

unfoldable pub drop_guard : Guard → State → State
drop_guard no_guard e = e
drop_guard (flags c) e = touch (set c 1) e
drop_guard (writes v) e = touch (λ w. record w { output = w.output ++ v ∷ [] }) e

-- The drop of a future, for the handles that a future drops
unfoldable pub dropping : FutureOps World Program
dropping = record { poll = λ f id e. (e, f, pending); drop_future = λ f e. drop_guard f.guard e }

unfoldable pub wake_slot : ℕ → State → State
wake_slot s e = elim (e.outside.wakers s) [ none ↦ e | some id ↦ schedule id e ]

-- A poll of the code, under the waker of the task `id`
unfoldable pub poll_code : Code → ℕ → State → State × Code × Poll (Unit {0})
poll_code ends id e = (e, ends, ready tt)
poll_code (adds c n k) id e = poll_code k id (touch (add c n) e)
poll_code (logs v k) id e = poll_code k id (touch (λ w. record w { output = w.output ++ v ∷ [] }) e)
poll_code (yields k) id e = (schedule id e, k, pending)
poll_code (waits r s k) id e =
    let rest = poll_code k id e in
    if e.outside.counters r == 0
    then (touch (λ w. record w { wakers = update w.wakers s (some id) }) e, waits r s k, pending)
    else rest
poll_code (watches c r s) id e =
    let counted = touch (add c 1) e in
    if e.outside.counters r == 0
    then (
      touch (λ w. record w { wakers = update w.wakers s (some id) }) counted,
      watches c r s,
      pending,
    )
    else (counted, ends, ready tt)
poll_code (never c) id e = (touch (add c 1) e, never c, pending)
poll_code (keeps_waker s k) id e =
    poll_code k id (touch (λ w. record w { wakers = update w.wakers s (some id) }) e)
poll_code (wakes s k) id e =
    poll_code k id (touch (λ w. record w { wakers = update w.wakers s none }) (wake_slot s e))
poll_code (spawns child k) id e =
    poll_code k id (spawn (record { code = child; guard = no_guard }) e).0
poll_code (takes_handle h k) id e = poll_code k id (
    drop_task dropping (e.outside.handles h)
      (touch (λ w. record w { handles = update w.handles h none }) e))

-- A future that has ended has dropped its guard.
unfoldable pub poll_program : Program → ℕ → State → State × Program × Poll (Unit {0})
poll_program f id e =
    let (after, left, answer) = poll_code f.code id e in
    elim answer [
      | ready u ↦ (drop_guard f.guard after, record { code = left; guard = no_guard }, ready u)
      | pending ↦ (after, record f { code = left }, pending)
    ]

unfoldable pub programs : FutureOps World Program
programs = record { poll = poll_program; drop_future = λ f e. drop_guard f.guard e }

-- `spawn` keeps the handle in a place, `detached` gives it up. `drives` is the loop that processes while
-- there are tasks, and `blocks_on` says whether the future completed; both end within ten rounds.
pub data Act : Type 0 where
  spawn_to : ℕ → Program → Act
  detached : Program → Act
  drops_handle : ℕ → Act
  no_handle : ℕ → Act
  processes : ℕ → Act
  tasks : Bool → Act
  queue_len : ℕ → Act
  woken : ℕ → Act
  sets : ℕ → ℕ → Act
  counter : ℕ → ℕ → Act
  outputs : List ℕ → Act
  says : ℕ → Act
  wakes_by_ref : ℕ → Act
  has_waker : ℕ → Bool → Act
  ticks : Bool → Act
  drives : Act
  blocks_on : Program → Bool → Act
  drops_executor : Act

-- One call: the state after it, and whether its outcome is the asserted one.
unfoldable pub act : Act → State → State × Bool
act (spawn_to h f) e =
    let (k, id) = spawn f e in
    (touch (λ w. record w { handles = update w.handles h (some id) }) k, true)
act (detached f) e = ((spawn f e).0, true)
act (drops_handle h) e = (
  drop_task programs (e.outside.handles h)
      (touch (λ w. record w { handles = update w.handles h none }) e),
  true,
)
act (no_handle h) e = (e, not (is_some (e.outside.handles h)))
act (processes n) e = (process_tasks programs n e, true)
act (tasks b) e = (e, bool_eq (has_tasks e) b)
act (queue_len n) e = (e, length e.inbox == n)
act (woken n) e = (e, e.wakes == n)
act (sets c n) e = (touch (set c n) e, true)
act (counter c n) e = (e, e.outside.counters c == n)
act (outputs vs) e = (e, list_eq (λ a b. a == b) e.outside.output vs)
act (says v) e = (touch (λ w. record w { output = w.output ++ v ∷ [] }) e, true)
act (wakes_by_ref s) e = (wake_slot s e, true)
act (has_waker s b) e = (e, bool_eq (is_some (e.outside.wakers s)) b)
act (ticks b) e = let (k, worked) = tick programs e in (k, bool_eq worked b)
act drives e = elim (drive programs 10 e) [ none ↦ (e, false) | some k ↦ (k, true) ]
act (blocks_on f b) e = elim (block_on programs 10 f e) [
  | none ↦ (e, false)
  | some (k, completed) ↦ (k, bool_eq completed b)
]
act drops_executor e = (drop_executor programs e, true)

unfoldable pub passes : List Act → Bool
passes script =
    run_script act script
      (new (record { counters = λ c. 0; output = []; wakers = λ s. none; handles = λ h. none }))

abbrev pub Script : Type 0
Script = List Act

abbrev pub program : Code → Program
program k = record { code = k; guard = no_guard }

abbrev pub guarded : ℕ → Code → Program
guarded c k = record { code = k; guard = flags c }

abbrev pub process_all : Act
process_all = processes usize_max
