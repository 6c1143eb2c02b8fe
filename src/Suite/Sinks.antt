-- ===== src/Suite/Sinks.antt =====
-- The unit tests of src/poll_lock.rs: calls on one `LockedSink`, with the inner sink of the tests, and on
-- the `AsyncPollMutex` in it.
use eneste_rs.Prelude.{
  ℕ, ◌+◌, Bool, true, false, List, [], ◌∷◌, ◌++◌, Option, none, some, ◌==◌, ◌≡◌, refl, ◌&&◌,
  usize_add, usize_sub, if◌then◌else◌, update,
}
use eneste_rs.Event.{
  Poll, ready, pending, Waker, new_with, listen, notify, poll as event_poll, drop_listener,
  notify_inner, notify_count, notify_loop, hand_on, usize,
}
use eneste_rs.Event.Map.{get, insert, remove, set_value}
use eneste_rs.Lock.{LockState, idle, lock_poll, drop_future as drop_lock_future}
use eneste_rs.Mutex
use eneste_rs.Mutex.{AsyncMutex, mutex_ops, deref, deref_set, drop_guard, poll as mutex_poll}
use eneste_rs.PollLock
use eneste_rs.LockedSink.{
  LockedSink, SinkOps, SinkResult, ok, error, new, lock, poll_lock, put_back, with_guard,
  poll_flush_slot, poll_lock_and_flush_slot, poll_ready, start_send, after_slot, poll_flush,
  poll_close,
}
use eneste_rs.Suite.{run, bool_eq, list_eq, all_pass}

record VecSink : Type 0 where
  items : List ℕ
  blocked : Bool
  flushes : ℕ
  closes : ℕ

-- The error of `VecSink` is `Infallible`.
data Infallible : Type 0 where

-- `impl Sink<i32> for VecSink`
unfoldable vec_sink : SinkOps VecSink ℕ Infallible
vec_sink = record {
  poll_ready = λ s cx. (s, if s.blocked then pending else ready ok);
  start_send = λ s item. (record s { items = s.items ++ item ∷ [] }, ok);
  poll_flush = λ s cx. (record s { flushes = s.flushes + 1 }, ready ok);
  poll_close = λ s cx. (record s { closes = s.closes + 1 }, ready ok);
}

-- `holds` takes the lock by `block_on`, and `releases` drops its guard; `shows` and `blocks` read and
-- write the inner sink behind such a guard. Polls say whether they are ready; a guard of `polls_lock` is
-- released by `releases`. `polls_other` is a poll of the future of `lock`, with a number for its name.
data Act : Type 0 where
  holds : Act
  releases : Act
  shows : List ℕ → ℕ → ℕ → Act
  blocks : Bool → Act
  puts : List ℕ → Act
  polls_lock : Waker → Bool → Act
  polls_other : ℕ → Waker → Bool → Act
  sends : ℕ → Act
  readies : Waker → Bool → Act
  flushes : Waker → Bool → Act
  closes : Waker → Bool → Act
  woken : List Waker → Act

record Scene : Type 0 where
  sink : LockedSink VecSink ℕ
  others : ℕ → LockState

unfoldable is_ready {ℓ} : {A : Type ℓ} → Poll A → Bool
is_ready (ready u) = true
is_ready pending = false

unfoldable is_ok : SinkResult Infallible → Bool
is_ok ok = true
is_ok (error e) = false

-- The state after a method of the sink, and whether it was ready as asserted. A panic fails.
unfoldable after {ℓ} :
    {A : Type ℓ} → Scene → Option (LockedSink VecSink ℕ × Poll A) → Bool → Scene × Bool
after x none b = (x, false)
after x (some (k, r)) b = (record x { sink = k }, bool_eq (is_ready r) b)

unfoldable with_mutex : Scene → AsyncMutex VecSink → Scene
with_mutex x m = record x { sink = record (x.sink) { lock = record (x.sink.lock) { value = m } } }

unfoldable mutex : Scene → AsyncMutex VecSink
mutex x = x.sink.lock.value

-- One call: the state after it, and whether its outcome is the asserted one.
unfoldable act : Act → Scene → Scene × Bool
act holds x = elim (mutex_poll 3 (mutex x) (lock x.sink) 0) [
  | none ↦ (x, false)
  | some (m, st, r) ↦ (with_mutex x m, is_ready r)
]
act releases x = (with_mutex x (drop_guard (mutex x)), true)
act (shows items flushed closed) x =
    let s = deref (mutex x) in
    (x, list_eq (λ a b. a == b) s.items items && (s.flushes == flushed) && (s.closes == closed))
act (blocks b) x =
    (with_mutex x (deref_set (mutex x) (record (deref (mutex x)) { blocked = b })), true)
act (puts items) x =
    (with_mutex x (deref_set (mutex x) (record (deref (mutex x)) { items = items })), true)
act (polls_lock cx b) x = after x (poll_lock x.sink cx) b
act (polls_other k cx b) x = elim (mutex_poll 3 (mutex x) (x.others k) cx) [
  | none ↦ (x, false)
  | some (m, st, r) ↦
      (record (with_mutex x m) { others = update x.others k st }, bool_eq (is_ready r) b)
]
act (sends item) x =
    let (k, r) = start_send vec_sink x.sink item in (record x { sink = k }, is_ok r)
act (readies cx b) x = after x (poll_ready vec_sink 2 x.sink cx) b
act (flushes cx b) x = after x (poll_flush vec_sink x.sink cx) b
act (closes cx b) x = after x (poll_close vec_sink x.sink cx) b
act (woken ws) x = (x, list_eq (λ a b. a == b) (mutex x).event.woken ws)

unfoldable passes : List Act → Bool
passes script = run act script (record {
  sink = new (record { items = []; blocked = false; flushes = 0; closes = 0 });
  others = λ k. idle;
})

abbrev Script : Type 0
Script = List Act

-- `pollster::block_on(sink.lock())` in an assertion on the inner sink, and what follows it
abbrev looks : List ℕ → ℕ → ℕ → Script → Script
looks items flushed closed rest = holds ∷ shows items flushed closed ∷ releases ∷ rest

-- The tests of `AsyncPollMutex` use the mutex of the sink; their numbers are lists of one item.
abbrev lock_returns_the_initial_value : Script
lock_returns_the_initial_value = puts (42 ∷ []) ∷ holds ∷ shows (42 ∷ []) 0 0 ∷ releases ∷ []

abbrev lock_guard_mutations_persist : Script
lock_guard_mutations_persist =
    puts (0 ∷ []) ∷ holds ∷ puts (99 ∷ []) ∷ releases ∷ looks (99 ∷ []) 0 0 []

abbrev poll_lock_is_ready_when_uncontended : Script
poll_lock_is_ready_when_uncontended = puts (5 ∷ []) ∷ polls_lock 7 true ∷ shows (5 ∷ []) 0 0 ∷ []

abbrev poll_lock_is_pending_while_the_lock_is_held : Script
poll_lock_is_pending_while_the_lock_is_held = holds ∷ polls_lock 7 false ∷ releases ∷ []

abbrev poll_lock_wakes_and_completes_after_release : Script
poll_lock_wakes_and_completes_after_release =
    puts (5 ∷ [])
    ∷ holds
    ∷ polls_lock 7 false
    ∷ woken []
    ∷ releases
    ∷ woken (7 ∷ [])
    ∷ polls_lock 7 true
    ∷ shows (5 ∷ []) 0 0
    ∷ []

abbrev poll_lock_can_be_used_repeatedly : Script
poll_lock_can_be_used_repeatedly =
    polls_lock 7 true
    ∷ puts (1 ∷ [])
    ∷ releases
    ∷ polls_lock 7 true
    ∷ puts (2 ∷ [])
    ∷ releases
    ∷ polls_lock 7 true
    ∷ puts (3 ∷ [])
    ∷ releases
    ∷ polls_lock 7 true
    ∷ shows (3 ∷ []) 0 0
    ∷ []

abbrev poll_lock_guard_excludes_other_lockers : Script
poll_lock_guard_excludes_other_lockers =
    polls_lock 7 true ∷ polls_other 1 7 false ∷ releases ∷ polls_other 1 7 true ∷ []

abbrev lock_exposes_the_inner_sink : Script
lock_exposes_the_inner_sink = looks [] 0 0 []

abbrev poll_ready_is_ready_when_no_item_is_buffered : Script
poll_ready_is_ready_when_no_item_is_buffered = readies 7 true ∷ looks [] 0 0 []

abbrev start_send_buffers_the_item_without_touching_the_inner_sink : Script
start_send_buffers_the_item_without_touching_the_inner_sink = sends 1 ∷ looks [] 0 0 []

abbrev poll_ready_flushes_the_buffered_item_into_the_inner_sink : Script
poll_ready_flushes_the_buffered_item_into_the_inner_sink =
    sends 1 ∷ readies 7 true ∷ looks (1 ∷ []) 0 0 []

abbrev items_are_forwarded_in_order : Script
items_are_forwarded_in_order =
    readies 7 true
    ∷ sends 1
    ∷ readies 7 true
    ∷ sends 2
    ∷ readies 7 true
    ∷ sends 3
    ∷ flushes 7 true
    ∷ looks (1 ∷ 2 ∷ 3 ∷ []) 1 0 []

abbrev poll_ready_is_pending_while_the_inner_sink_is_not_ready : Script
poll_ready_is_pending_while_the_inner_sink_is_not_ready =
    blocks true
    ∷ sends 1
    ∷ readies 7 false
    ∷ looks [] 0 0 (holds ∷ blocks false ∷ releases ∷ readies 7 true ∷ looks (1 ∷ []) 0 0 [])

abbrev poll_flush_forwards_buffered_item_and_flushes_inner : Script
poll_flush_forwards_buffered_item_and_flushes_inner =
    sends 7 ∷ flushes 7 true ∷ looks (7 ∷ []) 1 0 []

abbrev poll_flush_without_buffered_item_still_flushes_inner : Script
poll_flush_without_buffered_item_still_flushes_inner = flushes 7 true ∷ looks [] 1 0 []

abbrev poll_close_forwards_buffered_item_and_closes_inner : Script
poll_close_forwards_buffered_item_and_closes_inner = sends 9 ∷ closes 7 true ∷ looks (9 ∷ []) 0 1 []

abbrev poll_flush_is_pending_while_the_inner_lock_is_held_elsewhere : Script
poll_flush_is_pending_while_the_inner_lock_is_held_elsewhere =
    holds ∷ flushes 7 false ∷ woken [] ∷ releases ∷ woken (7 ∷ []) ∷ flushes 7 true ∷ []

abbrev poll_lock_on_the_sink_waits_for_the_inner_lock : Script
poll_lock_on_the_sink_waits_for_the_inner_lock =
    holds ∷ polls_lock 7 false ∷ releases ∷ polls_lock 7 true ∷ []

abbrev sink_lock_future_is_independent_of_poll_state : Script
sink_lock_future_is_independent_of_poll_state = polls_other 1 7 true ∷ []

abbrev scripts : List Script
scripts =
    lock_returns_the_initial_value ∷ lock_guard_mutations_persist
    ∷ poll_lock_is_ready_when_uncontended ∷ poll_lock_is_pending_while_the_lock_is_held
    ∷ poll_lock_wakes_and_completes_after_release ∷ poll_lock_can_be_used_repeatedly
    ∷ poll_lock_guard_excludes_other_lockers ∷ lock_exposes_the_inner_sink
    ∷ poll_ready_is_ready_when_no_item_is_buffered
    ∷ start_send_buffers_the_item_without_touching_the_inner_sink
    ∷ poll_ready_flushes_the_buffered_item_into_the_inner_sink ∷ items_are_forwarded_in_order
    ∷ poll_ready_is_pending_while_the_inner_sink_is_not_ready
    ∷ poll_flush_forwards_buffered_item_and_flushes_inner
    ∷ poll_flush_without_buffered_item_still_flushes_inner
    ∷ poll_close_forwards_buffered_item_and_closes_inner
    ∷ poll_flush_is_pending_while_the_inner_lock_is_held_elsewhere
    ∷ poll_lock_on_the_sink_waits_for_the_inner_lock ∷ sink_lock_future_is_independent_of_poll_state
    ∷ []

sinks_pass : all_pass passes scripts ≡ true
unfolding all_pass passes run act after with_mutex mutex vec_sink is_ready is_ok bool_eq list_eq new
    lock poll_lock put_back with_guard poll_flush_slot poll_lock_and_flush_slot poll_ready
    start_send after_slot poll_flush poll_close PollLock.new PollLock.lock PollLock.poll_lock
    Mutex.new mutex_poll mutex_ops deref deref_set drop_guard lock_poll drop_lock_future new_with
    listen notify event_poll drop_listener notify_inner notify_count notify_loop hand_on usize get
    insert remove set_value usize_add usize_sub
sinks_pass = refl
