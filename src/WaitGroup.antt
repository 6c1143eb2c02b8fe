-- ===== src/WaitGroup.antt =====
-- src/waitgroup.rs: the wait group, its tickets, and the future of `wait`. The event and the ticket
-- count are shared by `Rc`, and passed from call to call.
pub mod Answer
pub mod Calls
pub mod System
mod Tests
use eneste_rs.Prelude.{
  ℕ, zero, suc, Bool, true, false, Option, none, some, ◌==◌, if◌then◌else◌, usize_add, usize_sub,
}
use eneste_rs.Event.{Inner, Poll, ready, pending, Waker, new_with, notify, usize}
use eneste_rs.Event.Stream.{StreamState, poll_next, state_alive, stream, drop_stream}

-- `WaitGroup`, and what its tickets share with it
pub record WaitGroup : Type 0 where
  pub event : Inner (Unit {0})
  pub tickets : ℕ

-- The states of the future of `wait`: before its first poll, at the `await`, and after its end.
pub data WaitState : Type 0 where
  start : WaitState
  looping : StreamState → WaitState
  finished : WaitState

-- `WaitGroup::new`
unfoldable pub new : WaitGroup
new = record { event = new_with; tickets = 0 }

-- `WaitGroup::add`
unfoldable pub add : WaitGroup → WaitGroup
add g = record g { tickets = usize_add g.tickets 1 }

-- `WaitGroup::len` and `is_empty`
unfoldable pub len : WaitGroup → ℕ
len g = g.tickets

unfoldable pub is_empty : WaitGroup → Bool
is_empty g = g.tickets == 0

-- `Ticket::drop`
unfoldable pub drop_ticket : WaitGroup → WaitGroup
drop_ticket g = record g { tickets = usize_sub g.tickets 1; event = notify g.event (usize 1) }

-- The end of `wait` drops its stream.
unfoldable pub leave : WaitGroup → StreamState → WaitGroup
leave g st = record g { event = drop_stream g.event st }

-- The loop of `wait`: `none` when the fuel runs out, or if the stream panics.
unfoldable pub wait_loop :
    ℕ → WaitGroup → StreamState → Waker → Option (WaitGroup × WaitState × Poll (Unit {0}))
wait_loop zero g st cx = none
wait_loop (suc fuel) g st cx = elim (poll_next state_alive 4 g.event st cx) [
  | none ↦ none
  | some (e, st', pending) ↦ some (record g { event = e }, looping st', pending)
  | some (e, st', ready none) ↦ some (leave (record g { event = e }) st', finished, ready tt)
  | some (e, st', ready (some u)) ↦
      let rest = wait_loop fuel (record g { event = e }) st' cx in
      if g.tickets == 0 then some (leave (record g { event = e }) st', finished, ready tt) else rest
]

-- A poll of the future of `wait`; polling it after its end is a panic.
unfoldable pub wait_poll :
    ℕ → WaitGroup → WaitState → Waker → Option (WaitGroup × WaitState × Poll (Unit {0}))
wait_poll fuel g start cx =
    let (e, st) = stream g.event in
    let rest = wait_loop fuel (record g { event = e }) st cx in
    if is_empty g then some (g, finished, ready tt) else rest
wait_poll fuel g (looping st) cx = wait_loop fuel g st cx
wait_poll fuel g finished cx = none

-- The drop of the future of `wait`
unfoldable pub drop_wait : WaitGroup → WaitState → WaitGroup
drop_wait g start = g
drop_wait g (looping st) = leave g st
drop_wait g finished = g
