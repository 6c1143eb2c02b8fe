-- ===== src/Event/Stream.antt =====
-- `EventStream` (src/event.rs), and the loop that it shares with `EmitterStream` (src/emitter.rs).
use eneste_rs.Prelude.{
  ℕ, zero, suc, Bool, true, false, not, ◌||◌, List, [], ◌∷◌, Option, none, some, if◌then◌else◌,
}
pub mod Loop
use eneste_rs.Event.{Inner, Poll, ready, pending, Waker, listen, poll, is_closed, drop_listener}

-- `EventStreamState` and `EmitterStreamState`
pub data StreamState : Type 0 where
  listening : ℕ → StreamState
  next : StreamState
  done : StreamState

module _ {ℓ} {T : Type ℓ} where
  -- Whether `Weak<RefCell<Inner<T>>>` upgrades: the shared state is kept by the event until it is
  -- closed, and by each listener, which has an entry in the map as long as it lives.
  unfoldable pub state_alive : Inner T → Bool
  state_alive e = not e.closed || elim e.listeners [ [] ↦ false | x ∷ m ↦ true ]

  -- Whether `Weak<Event<T>>` upgrades: until the event is dropped.
  unfoldable pub event_alive : Inner T → Bool
  event_alive e = not e.closed

  -- A poll of the stream; a loop on fuel. `none` is a panic of `poll` or the end of the fuel.
  unfoldable pub poll_next :
      (Inner T → Bool)
      → ℕ
      → Inner T
      → StreamState
      → Waker
      → Option (Inner T × StreamState × Poll (Option T))
  poll_next alive zero e s cx = none
  poll_next alive (suc fuel) e (listening id) cx = elim (poll e id cx) [
    | none ↦ none
    | some (e', ready data') ↦ some (drop_listener e' id, next, ready (some data'))
    | some (e', pending) ↦
        let closing = poll_next alive fuel (drop_listener e' id) done cx in
        if is_closed e' then closing else some (e', listening id, pending)
  ]
  poll_next alive (suc fuel) e next cx =
      let (e', id) = listen e in
      let again = poll_next alive fuel e' (listening id) cx in
      let closing = poll_next alive fuel e done cx in if alive e then again else closing
  poll_next alive (suc fuel) e done cx = some (e, done, ready none)

  -- `Event::stream`, and `Emitter::subscribe`
  unfoldable pub stream : Inner T → Inner T × StreamState
  stream e = let (e', id) = listen e in (e', listening id)

  -- The drop of a stream drops its listener.
  unfoldable pub drop_stream : Inner T → StreamState → Inner T
  drop_stream e (listening id) = drop_listener e id
  drop_stream e next = e
  drop_stream e done = e
