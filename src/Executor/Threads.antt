-- ===== src/Executor/Threads.antt =====
-- src/executor.rs, atomic step by atomic step: wakers on any number of threads, against the executor's
-- own thread. A task's future, its slot and what a poll does are left out here; wake-ups from within a
-- poll are those of one more thread. What `has_tasks` answers is left out.
pub mod Counting
pub mod Schedule
pub mod Safety
mod Tests
use eneste_rs.Prelude.{
  ℕ, ◌+◌, ◌<◌, ◌≡◌, min, Bool, true, false, List, [], ◌∷◌, ◌++◌, length, update,
}
use eneste_rs.Executor.{Header, is_finished, new_header, drain}

-- Where a thread stands in `Header::schedule`: before its call, before each of its atomic reads and
-- writes, in the critical section of the inbox, and before the call of the notifier.
pub data WakerAt : Type 0 where
  away : WakerAt
  called : ℕ → WakerAt
  checked : ℕ → WakerAt
  marking : ℕ → WakerAt
  claimed : ℕ → WakerAt
  pushing : ℕ → WakerAt
  releasing : WakerAt
  ringing : WakerAt

-- Where the executor's thread stands in `process_tasks`, `run`, `has_tasks` and `ExecutorState::drop`.
pub data ExecutorAt : Type 0 where
  resting : ExecutorAt
  draining : ℕ → ExecutorAt
  discarding : ExecutorAt
  looking : ExecutorAt
  leaving : ExecutorAt
  clearing : ℕ → ExecutorAt
  polling : ℕ → ExecutorAt

-- `Shared` and the headers, with the lock of the inbox; the threads; `tasks_to_run`, as far as it has not
-- been run. `pushed` counts the pushes, which the source does not.
pub record World : Type 0 where
  pub headers : ℕ → Header
  pub inbox : List ℕ
  pub locked : Bool
  pub closed : Bool
  pub wakes : ℕ
  pub pushed : ℕ
  pub threads : ℕ → WakerAt
  pub executor : ExecutorAt
  pub held : List ℕ

abbrev pub set_flags : ℕ → Header → World → World
set_flags id h w = record w { headers = update w.headers id h }

abbrev pub goes : ℕ → WakerAt → World → World
goes t pc w = record w { threads = update w.threads t pc }

unfoldable pub start : World
start = record {
  headers = λ id. new_header;
  inbox = [];
  locked = false;
  closed = false;
  wakes = 0;
  pushed = 0;
  threads = λ t. away;
  executor = resting;
  held = [];
}

-- A step of one of the first `n` threads, in `Header::schedule`. `SpinLock::lock` goes on when its
-- `compare_exchange` finds the lock free, and the drop of the guard frees it.
pub data WakerStep (n : ℕ) (w : World) : World → Type 0 where
  calls : (t id : ℕ) → t < n → w.threads t ≡ away → WakerStep n w (goes t (called id) w)
  sees_finished :
      (t id : ℕ)
      → t < n
      → w.threads t ≡ called id
      → is_finished (w.headers id) ≡ true
      → WakerStep n w (goes t away w)
  sees_live :
      (t id : ℕ)
      → t < n
      → w.threads t ≡ called id
      → is_finished (w.headers id) ≡ false
      → WakerStep n w (goes t (checked id) w)
  sees_closed :
      (t id : ℕ)
      → t < n
      → w.threads t ≡ checked id
      → w.closed ≡ true
      → WakerStep n w (goes t away w)
  sees_open :
      (t id : ℕ)
      → t < n
      → w.threads t ≡ checked id
      → w.closed ≡ false
      → WakerStep n w (goes t (marking id) w)
  finds_queued :
      (t id : ℕ)
      → t < n
      → w.threads t ≡ marking id
      → (w.headers id).queued ≡ true
      → WakerStep n w (goes t away w)
  claims :
      (t id : ℕ)
      → t < n
      → w.threads t ≡ marking id
      → (w.headers id).queued ≡ false
      → WakerStep n w
          (goes t (claimed id) (set_flags id (record (w.headers id) { queued = true }) w))
  locks :
      (t id : ℕ)
      → t < n
      → w.threads t ≡ claimed id
      → w.locked ≡ false
      → WakerStep n w (goes t (pushing id) (record w { locked = true }))
  pushes :
      (t id : ℕ)
      → t < n
      → w.threads t ≡ pushing id
      → WakerStep n w
          (goes t releasing (record w { inbox = w.inbox ++ id ∷ []; pushed = w.pushed + 1 }))
  releases :
      (t : ℕ)
      → t < n
      → w.threads t ≡ releasing
      → WakerStep n w (goes t ringing (record w { locked = false }))
  rings :
      (t : ℕ)
      → t < n
      → w.threads t ≡ ringing
      → WakerStep n w (goes t away (record w { wakes = w.wakes + 1 }))

-- A step of the executor's thread.
pub data ExecutorStep (w : World) : World → Type 0 where
  locks_inbox :
      (count : ℕ)
      → w.executor ≡ resting
      → w.held ≡ []
      → w.locked ≡ false
      → ExecutorStep w (record w { executor = draining count; locked = true })
  drains :
      (count : ℕ)
      → w.executor ≡ draining count
      → ExecutorStep w (record w {
        held = (drain (min count (length w.inbox)) w.inbox).0;
        inbox = (drain (min count (length w.inbox)) w.inbox).1;
        executor = leaving;
      })
  skips :
      (id : ℕ) (rest : List ℕ)
      → w.executor ≡ resting
      → w.held ≡ id ∷ rest
      → is_finished (w.headers id) ≡ true
      → ExecutorStep w (record w { held = rest })
  picks :
      (id : ℕ) (rest : List ℕ)
      → w.executor ≡ resting
      → w.held ≡ id ∷ rest
      → is_finished (w.headers id) ≡ false
      → ExecutorStep w (record w { held = rest; executor = clearing id })
  clears :
      (id : ℕ)
      → w.executor ≡ clearing id
      → ExecutorStep w (record (set_flags id (record (w.headers id) { queued = false }) w) {
        executor = polling id;
      })
  completes :
      (id : ℕ)
      → w.executor ≡ polling id
      → ExecutorStep w (record (set_flags id (record (w.headers id) { completed = true }) w) {
        executor = resting;
      })
  pends : (id : ℕ) → w.executor ≡ polling id → ExecutorStep w (record w { executor = resting })
  -- The drop of a handle, or of the executor for each of its slots
  cancels : (id : ℕ) → ExecutorStep w (set_flags id (record (w.headers id) { canceled = true }) w)
  closes : w.executor ≡ resting → w.held ≡ [] → ExecutorStep w (record w { closed = true })
  locks_to_discard :
      w.executor ≡ resting
      → w.closed ≡ true
      → w.locked ≡ false
      → ExecutorStep w (record w { executor = discarding; locked = true })
  discards : w.executor ≡ discarding → ExecutorStep w (record w { inbox = []; executor = leaving })
  -- `has_tasks`
  locks_to_look :
      w.executor ≡ resting
      → w.held ≡ []
      → w.locked ≡ false
      → ExecutorStep w (record w { executor = looking; locked = true })
  looks : w.executor ≡ looking → ExecutorStep w (record w { executor = leaving })
  -- The drop of the guard of the inbox
  leaves : w.executor ≡ leaving → ExecutorStep w (record w { locked = false; executor = resting })

pub data Reach (n : ℕ) : World → Type 0 where
  created : Reach n start
  wakes_on : {w v : World} → Reach n w → WakerStep n w v → Reach n v
  executes : {w v : World} → Reach n w → ExecutorStep w v → Reach n v
