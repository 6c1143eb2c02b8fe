-- ===== src/Lock/System.antt =====
-- `n` tasks that share one lock of src/lock: their calls interleave in any order, and a future or a
-- guard may be dropped at any time.
use eneste_rs.Prelude.{ℕ, ◌+◌, ◌<◌, ◌≡◌, some, update, usize_mod}
use eneste_rs.Event.{Poll, ready, pending, Waker}
use eneste_rs.Lock.{LockState, idle, LockOps, lock_poll, drop_future}
use eneste_rs.Lock.Tasks.{Task, outside, trying, holding}

pub record System (S Mode : Type 0) : Type 0 where
  pub lock : S
  pub tasks : ℕ → Task Mode

-- A future that is pending is polled again later; one that is ready hands out its guard.
abbrev pub polled_task : {Mode : Type 0} → Mode → LockState → Poll (Unit {0}) → Task Mode
polled_task m st pending = trying m st
polled_task m st (ready u) = holding m

module _ {S Mode : Type 0} (ops : LockOps S Mode) where
  open ops use {event, release}

  -- A ready future is dropped with its state.
  abbrev pub polled_lock : S → LockState → Poll (Unit {0}) → S
  polled_lock s st pending = s
  polled_lock s st (ready u) = drop_future ops s st

  -- The lock futures are polled with fuel 3, and while the ids of the event last.
  pub data Step (n : ℕ) (s : System S Mode) : System S Mode → Type 0 where
    begins :
        (i : ℕ) (m : Mode)
        → i < n
        → s.tasks i ≡ outside
        → Step n s (record s { tasks = update s.tasks i (trying m idle) })
    polls :
        (i : ℕ) (m : Mode) (st : LockState) (cx : Waker) {l : S} {st' : LockState}
        {r : Poll (Unit {0})}
        → i < n
        → s.tasks i ≡ trying m st
        → (event s.lock).next_id + 1 < usize_mod
        → lock_poll ops 3 m s.lock st cx ≡ some (l, st', r)
        → Step n s
            (record { lock = polled_lock l st' r; tasks = update s.tasks i (polled_task m st' r) })
    cancels :
        (i : ℕ) (m : Mode) (st : LockState)
        → i < n
        → s.tasks i ≡ trying m st
        → Step n s (record { lock = drop_future ops s.lock st; tasks = update s.tasks i outside })
    releases :
        (i : ℕ) (m : Mode) {l : S}
        → i < n
        → s.tasks i ≡ holding m
        → release m s.lock ≡ some l
        → Step n s (record { lock = l; tasks = update s.tasks i outside })

  abbrev pub start : S → System S Mode
  start s = record { lock = s; tasks = λ i. outside }

  pub data Reach (n : ℕ) (s : S) : System S Mode → Type 0 where
    created : Reach n s (start s)
    after : {t u : System S Mode} → Reach n s t → Step n t u → Reach n s u
