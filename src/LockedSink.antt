-- ===== src/LockedSink.antt =====
-- src/poll_lock.rs: `LockedSink`, a sink behind an `AsyncPollMutex` with a slot for one item. The inner
-- sink, which the crate gets from its user, is a parameter.
pub mod Slot
pub mod Order
pub mod System
mod Tests
use eneste_rs.Prelude.{ℕ, zero, suc, Option, none, some}
use eneste_rs.Event.{Poll, ready, pending, Waker}
use eneste_rs.Lock.{LockState}
use eneste_rs.Mutex.{AsyncMutex, deref, deref_set, drop_guard}
use eneste_rs.PollLock
use eneste_rs.PollLock.{AsyncPollMutex}

-- `Result<(), T::Error>`
pub data SinkResult (E : Type 0) : Type 0 where
  ok : SinkResult E
  error : E → SinkResult E

-- The trait `Sink<M>` of `futures_sink`, for a sink with the state `S`
pub record SinkOps (S M E : Type 0) : Type 0 where
  pub poll_ready : S → Waker → S × Poll (SinkResult E)
  pub start_send : S → M → S × SinkResult E
  pub poll_flush : S → Waker → S × Poll (SinkResult E)
  pub poll_close : S → Waker → S × Poll (SinkResult E)

pub record LockedSink (S M : Type 0) : Type 0 where
  pub lock : AsyncPollMutex S
  pub slot : Option M

module _ {S M : Type 0} where
  unfoldable pub new : S → LockedSink S M
  new value = record { lock = PollLock.new value; slot = none }

  -- `LockedSink::lock`: the future of the inner lock.
  unfoldable pub lock : LockedSink S M → LockState
  lock k = PollLock.lock k.lock

  -- `LockedSink::poll_lock`: two rounds are enough for its loop.
  unfoldable pub poll_lock : LockedSink S M → Waker → Option (LockedSink S M × Poll (Unit {0}))
  poll_lock k cx = elim (PollLock.poll_lock 2 k.lock cx) [
    | none ↦ none
    | some (p, r) ↦ some (record k { lock = p }, r)
  ]

  -- What is left in the mutex and in the slot when a guard is dropped at the end of a method.
  unfoldable pub put_back : AsyncPollMutex S → S → Option M → LockedSink S M
  put_back p inner slot = record {
    lock = record p { value = drop_guard (deref_set p.value inner) };
    slot = slot;
  }

  -- A method takes the guard, calls `body` on the inner sink and the slot, and drops the guard. `none` is
  -- a panic of the lock future.
  unfoldable pub with_guard {κ} :
      {A : Type κ}
      → (S → Option M → S × Option M × Poll A)
      → LockedSink S M
      → Waker
      → Option (LockedSink S M × Poll A)
  unfolding poll_lock put_back deref
  with_guard body k cx = elim (poll_lock k cx) [
    | none ↦ none
    | some (l, pending) ↦ some (l, pending)
    | some (l, ready guard) ↦
        let (inner, slot, answer) = body (deref l.lock.value) l.slot in
        some (put_back l.lock inner slot, answer)
  ]

module _ {S M E : Type 0} (ops : SinkOps S M E) where
  -- `LockedSink::poll_flush_slot`, on the inner sink behind a guard
  unfoldable pub poll_flush_slot : S → Option M → Waker → S × Option M × Poll (SinkResult E)
  poll_flush_slot inner none cx = (inner, none, ready ok)
  poll_flush_slot inner (some item) cx =
      let (polled, answer) = ops.poll_ready inner cx in
      elim answer [
        | pending ↦ (polled, some item, pending)
        | ready (error e) ↦ (polled, some item, ready (error e))
        | ready ok ↦ let (sent, result) = ops.start_send polled item in (sent, none, ready result)
      ]

  -- `LockedSink::poll_lock_and_flush_slot`
  unfoldable pub poll_lock_and_flush_slot :
      LockedSink S M → Waker → Option (LockedSink S M × Poll (SinkResult E))
  poll_lock_and_flush_slot k cx = with_guard (λ inner slot. poll_flush_slot inner slot cx) k cx

  -- `Sink::poll_ready`; `none` is a panic of the lock future or the end of the fuel.
  unfoldable pub poll_ready :
      ℕ → LockedSink S M → Waker → Option (LockedSink S M × Poll (SinkResult E))
  poll_ready zero k cx = none
  poll_ready (suc fuel) k cx = elim k.slot [
    | none ↦ some (k, ready ok)
    | some item ↦ elim (poll_lock_and_flush_slot k cx) [
      | none ↦ none
      | some (l, pending) ↦ some (l, pending)
      | some (l, ready (error e)) ↦ some (l, ready (error e))
      | some (l, ready ok) ↦ poll_ready fuel l cx
    ]
  ]

  -- `Sink::start_send`
  unfoldable pub start_send : LockedSink S M → M → LockedSink S M × SinkResult E
  start_send k item = (record k { slot = some item }, ok)

  -- The end of `poll_flush` and `poll_close`, behind the guard: the slot, and then the inner sink.
  unfoldable pub after_slot :
      (S → Waker → S × Poll (SinkResult E))
      → S × Option M × Poll (SinkResult E)
      → Waker
      → S × Option M × Poll (SinkResult E)
  after_slot finish (inner, slot, pending) cx = (inner, slot, pending)
  after_slot finish (inner, slot, ready (error e)) cx = (inner, slot, ready (error e))
  after_slot finish (inner, slot, ready ok) cx =
      let (finished, answer) = finish inner cx in (finished, slot, answer)

  -- `Sink::poll_flush` and `Sink::poll_close`
  unfoldable pub poll_flush : LockedSink S M → Waker → Option (LockedSink S M × Poll (SinkResult E))
  poll_flush k cx =
      with_guard (λ inner slot. after_slot ops.poll_flush (poll_flush_slot inner slot cx) cx) k cx

  unfoldable pub poll_close : LockedSink S M → Waker → Option (LockedSink S M × Poll (SinkResult E))
  poll_close k cx =
      with_guard (λ inner slot. after_slot ops.poll_close (poll_flush_slot inner slot cx) cx) k cx
