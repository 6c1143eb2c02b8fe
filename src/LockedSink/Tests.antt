-- ===== src/LockedSink/Tests.antt =====
-- A `LockedSink` of src/poll_lock.rs over a small sink, and the theorems at the states of a run.
use eneste_rs.Prelude.{
  ℕ, ◌-◌, ◌≡◌, refl, [], ◌∷◌, ◌++◌, some, arith, usize_add, ◌==◌, if◌then◌else◌,
}
use eneste_rs.Event.{
  ready, pending, new_with, listen, notify, notify_inner, notify_count, notify_loop, usize,
}
use eneste_rs.Event.Map.{insert}
use eneste_rs.Lock.{lock_poll, drop_future}
use eneste_rs.Mutex
use eneste_rs.Mutex.{mutex_ops}
use eneste_rs.PollLock
use eneste_rs.LockedSink.{
  ok, error, SinkOps, new, poll_ready, start_send, poll_flush, poll_close, poll_lock_and_flush_slot,
  with_guard, poll_flush_slot, poll_lock, put_back,
}
use eneste_rs.LockedSink.Order.{logged, slot_items}
use eneste_rs.LockedSink.System.{
  History, Reach, created, after, polls_ready, sends, delivered, Delivers, delivers_in_order,
  methods_deliver,
}

-- A sink with room for as many items as its state says; a flush makes room for two more.
abbrev small_ops : SinkOps ℕ ℕ ℕ
small_ops = record {
  poll_ready = λ room cx. (room, if room == 0 then pending else ready ok);
  start_send = λ room m. (room - 1, if m == 13 then error m else ok);
  poll_flush = λ room cx. (2, ready ok);
  poll_close = λ room cx. (room, ready ok);
}

abbrev Run : Type 0
Run = (h : History ℕ ℕ) × Reach small_ops 1 h

-- Two items were accepted: the first is in the inner sink, the second in the slot.
two_sent : Run
unfolding new PollLock.new Mutex.new new_with poll_ready start_send poll_lock_and_flush_slot
    with_guard poll_flush_slot poll_lock PollLock.poll_lock put_back Mutex.poll lock_poll mutex_ops
    Mutex.is_locked Mutex.lock Mutex.drop_guard Mutex.unlock drop_future notify notify_inner
    notify_count notify_loop usize usize_add listen insert
two_sent = (
  _,
  after
      (after (after (after created (polls_ready 7 (omega arith) refl)) (sends 11 refl))
        (polls_ready 7 (omega arith) refl))
      (sends 12 refl),
)

two_sent_slot : two_sent.0.sink.slot ≡ some 12
unfolding two_sent Mutex.deref_set
two_sent_slot = refl

delivers_in_order_example :
    delivered two_sent.0.sink ++ slot_items two_sent.0.sink.slot ≡ 11 ∷ 12 ∷ []
unfolding two_sent Mutex.deref_set
delivers_in_order_example = delivers_in_order small_ops two_sent.1

methods_deliver_example :
    Delivers small_ops two_sent.0 (poll_ready (logged small_ops) 2 two_sent.0.sink 7)
    × Delivers small_ops two_sent.0 (poll_flush (logged small_ops) two_sent.0.sink 7)
    × Delivers small_ops two_sent.0 (poll_close (logged small_ops) two_sent.0.sink 7)
unfolding two_sent Mutex.deref_set
methods_deliver_example = methods_deliver small_ops 7 two_sent.1 (omega arith)
