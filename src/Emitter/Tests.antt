-- ===== src/Emitter/Tests.antt =====
-- An emitter with three subscribers and a listener on a fixed stream (src/emitter.rs), and the theorems
-- at them.
use eneste_rs.Prelude.{
  ℕ, ◌+◌, ◌≡◌, refl, Bool, true, false, not, ◌||◌, List, [], ◌∷◌, Option, none, some, arith, ltb,
  usize_add,
}
use eneste_rs.Event.Map.{get, insert, remove, set_value}
use eneste_rs.Event.{
  Inner, Poll, ready, Waker, new_with, listen, notify, notify_inner, notify_count, notify_loop,
  usize, with_value, drop_listener, poll,
}
use eneste_rs.Event.Invariant.{Inv}
use eneste_rs.Event.Listener.{consumed}
use eneste_rs.Emitter.Delivery.{serve, handles_all_emitted}
use eneste_rs.Event.Stream.{StreamState, listening, next, poll_next, event_alive}
use eneste_rs.Emitter.{
  new, subscribe, emit, emitter_poll_next, Listener, listener_poll, subscribe_once_poll,
}
use eneste_rs.Emitter.Broadcast.{emit_reaches_everyone}
use eneste_rs.Emitter.Handling.{until, yields, stops, listener_poll_lem, answer}

-- Subscriber 0 has an old value, 1 and 2 wait.
abbrev three : Inner ℕ
three = record {
  listeners =
      (0, record { waker = none; value = some 4 })
      ∷ (1, record { waker = some 7; value = none })
      ∷ (2, record { waker = some 8; value = none })
      ∷ [];
  next_id = 3;
  notified = 1;
  closed = false;
  woken = [];
}

three-Inv : Inv three
three-Inv = record { ordered = omega arith; counted = refl; few = omega arith; small = omega arith }

emit_reaches_everyone_example :
    emitter_poll_next 4 (emit three 5) (listening 2) 8
    ≡ some (consumed (emit three 5) 2, next, ready (some 5))
unfolding get
emit_reaches_everyone_example =
    emit_reaches_everyone three 5 2 (record { waker = some 8; value = none }) 0 8 three-Inv
      (omega arith) refl

-- A stream that is a list of the items that are left.
unfoldable from_list : List ℕ → Waker → List ℕ × Poll (Option ℕ)
from_list [] cx = ([], ready none)
from_list (x ∷ xs) cx = (xs, ready (some x))

-- A closure that adds up, and says `false` from ten on.
unfoldable add_up : ℕ → ℕ → ℕ × Bool
add_up m x = (m + x, ltb (m + x) 10)

adds_until_ten :
    listener_poll from_list add_up 9
      (record { stream = 4 ∷ 5 ∷ 6 ∷ 7 ∷ []; map = 0; finished = false })
      1
    ≡ some (record { stream = 7 ∷ []; map = 15; finished = true }, ready tt)
unfolding listener_poll from_list add_up
adds_until_ten = refl

listener_poll_example :
    (l : Listener (List ℕ) ℕ) × (listener_poll from_list add_up 9
        (record { stream = 4 ∷ 5 ∷ []; map = 0; finished = false })
        1
      ≡ some (l, answer from_list 1 add_up (not (until add_up 0 (4 ∷ 5 ∷ [])).1 || true)))
    × (l.map ≡ (until add_up 0 (4 ∷ 5 ∷ [])).0)
    × (l.finished ≡ (not (until add_up 0 (4 ∷ 5 ∷ [])).1 || true))
unfolding from_list
listener_poll_example =
    listener_poll_lem from_list 1 add_up 9 (4 ∷ 5 ∷ []) 0 (4 ∷ 5 ∷ []) true
      (yields refl (yields refl (stops refl))) (omega arith)

takes_the_first : subscribe_once_poll from_list (3 ∷ 4 ∷ []) 1 ≡ some (4 ∷ [], ready 3)
unfolding subscribe_once_poll from_list
takes_the_first = refl

-- A subscriber of a new emitter gets the first value, and waits for the second one.
first_emitted :
    (let (e, st) = subscribe {T = ℕ} new in emitter_poll_next 4 (emit e 5) st 8)
    ≡ some (
      record { listeners = []; next_id = 1; notified = 0; closed = false; woken = [] },
      next,
      ready (some 5),
    )
unfolding new subscribe emit emitter_poll_next poll_next poll new_with listen notify notify_inner
    notify_count notify_loop usize with_value usize_add insert get remove event_alive drop_listener
    set_value
first_emitted = refl

-- The emitter of `three`, whose subscriber 2 is a listener that adds up; it stops at the second value.
handles_all_emitted_example :
    (k : Listener (Inner ℕ × StreamState) ℕ) × (serve add_up 8
        (5 ∷ 6 ∷ 7 ∷ [])
        (record { stream = (three, listening 2); map = 0; finished = false })
      ≡ some k)
    × (k.map ≡ (until add_up 0 (5 ∷ 6 ∷ 7 ∷ [])).0)
    × (k.finished ≡ not (until add_up 0 (5 ∷ 6 ∷ 7 ∷ [])).1)
unfolding get
handles_all_emitted_example =
    handles_all_emitted add_up 8 (5 ∷ 6 ∷ 7 ∷ []) (three, listening 2) 0
      (record { event = three-Inv; on = refl; ids = omega arith; at = (2, some 8, refl, refl) })

stops_at_eleven : until add_up 0 (5 ∷ 6 ∷ 7 ∷ []) ≡ (11, false)
unfolding until add_up
stops_at_eleven = refl
