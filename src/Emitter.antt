-- ===== src/Emitter.antt =====
-- src/emitter.rs: the emitter, the futures `Listener` and `SubscribeOnce` over any stream. The stream of
-- an emitter is the loop of Event/Stream with the upgrade of `Weak<Event<T>>`.
pub mod Broadcast
pub mod Handling
pub mod Delivery
pub mod Weakly
mod Tests
use eneste_rs.Prelude.{
  ℕ, zero, suc, Bool, true, false, Option, none, some, if◌then◌else◌, usize_max,
}
use eneste_rs.Event.{
  Inner, Poll, ready, pending, Waker, notify, usize, with_value, new_with, listen,
}
use eneste_rs.Event.Stream.{StreamState, listening, poll_next, event_alive}

module _ {ℓ} {T : Type ℓ} where
  -- `Emitter::new`; the event behind its `Rc` is passed from call to call.
  unfoldable pub new : Inner T
  new = new_with

  -- `Emitter::subscribe`: a listener is registered at once.
  unfoldable pub subscribe : Inner T → Inner T × StreamState
  subscribe e = let (k, id) = listen e in (k, listening id)

  -- `Emitter::emit`
  unfoldable pub emit : Inner T → T → Inner T
  emit e value = notify e (with_value (usize usize_max) value)

  -- `EmitterStream::poll_next`
  unfoldable pub emitter_poll_next :
      ℕ → Inner T → StreamState → Waker → Option (Inner T × StreamState × Poll (Option T))
  emitter_poll_next = poll_next event_alive

-- `Listener`, with its stream in a state of `S` and its closure `map` in a state of `M`
pub record Listener (S M : Type 0) : Type 0 where
  pub stream : S
  pub map : M
  pub finished : Bool

module _ {S T : Type 0} (poll_stream : S → Waker → S × Poll (Option T)) where
  -- `Listener::poll`; `none` when the fuel runs out. `call` is a call of the closure.
  module _ {M : Type 0} (call : M → T → M × Bool) where
    unfoldable pub listener_poll :
        ℕ → Listener S M → Waker → Option (Listener S M × Poll (Unit {0}))
    listener_poll zero l cx = none
    listener_poll (suc fuel) l cx =
        let (stream, polled) = poll_stream l.stream cx in
        let next : Option (Listener S M × Poll (Unit {0})) = elim polled [
          | ready (some data') ↦
              let (map, more) = call l.map data' in
              listener_poll fuel
                (record l {
                  stream = stream;
                  map = map;
                  finished = if more then l.finished else true;
                })
                cx
          | ready none ↦ listener_poll fuel (record l { stream = stream; finished = true }) cx
          | pending ↦ some (record l { stream = stream }, pending)
        ] in
        if l.finished then some (l, ready tt) else next

  -- `SubscribeOnce::poll`; `none` is the panic.
  unfoldable pub subscribe_once_poll : S → Waker → Option (S × Poll T)
  subscribe_once_poll s cx =
      let (stream, polled) = poll_stream s cx in
      elim polled [
        | ready (some data') ↦ some (stream, ready data')
        | ready none ↦ none
        | pending ↦ some (stream, pending)
      ]
