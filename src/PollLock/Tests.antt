-- ===== src/PollLock/Tests.antt =====
-- `AsyncPollMutex` of src/poll_lock.rs on a free and on a taken mutex, and the theorem at them.
use eneste_rs.Prelude.{ℕ, ◌≡◌, refl, true, false, [], ◌∷◌, none, some, arith, usize_add}
use eneste_rs.Event.{
  ready, new_with, listen, notify, notify_inner, notify_count, notify_loop, usize,
}
use eneste_rs.Event.Map.{get}
use eneste_rs.Lock.{waiting, lock_poll, drop_future}
use eneste_rs.Mutex
use eneste_rs.Mutex.{AsyncMutex, mutex_ops}
use eneste_rs.PollLock.{unlocking, locked, AsyncPollMutex, new, poll_lock}
use eneste_rs.PollLock.Total.{Good, Answers, poll_lock-Answers}

-- Somebody else holds the guard, and the kept future sleeps.
abbrev taken : AsyncPollMutex ℕ
taken = record {
  value = record {
    value = 5;
    event = record {
      listeners = (0, record { waker = some 7; value = none }) ∷ [];
      next_id = 1;
      notified = 0;
      closed = false;
      woken = [];
    };
    locked = true;
  };
  state = unlocking (waiting 0);
}

taken-Good : Good taken
unfolding get
taken-Good = record {
  event = record { ordered = omega arith; counted = refl; few = omega arith; small = omega arith };
  attached = (_, refl);
}

poll_lock-Answers_example : Answers 8 taken (poll_lock 2 taken 8)
poll_lock-Answers_example = poll_lock-Answers 0 taken 8 taken-Good (omega arith)

-- The first poll of a free mutex hands out the guard.
free_is_taken :
    poll_lock {T = ℕ} 2 (new 5) 7
    ≡ some (record { value = record (Mutex.new 5) { locked = true }; state = locked }, ready tt)
unfolding poll_lock new Mutex.new Mutex.poll lock_poll mutex_ops Mutex.is_locked Mutex.lock new_with
    drop_future notify notify_inner notify_count notify_loop usize usize_add listen
free_is_taken = refl
