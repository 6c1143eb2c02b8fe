-- ===== src/Suite/Events.antt =====
-- How the unit tests of src/event.rs run: calls on one event, its listeners and its streams.
mod Listeners
mod Streams
use eneste_rs.Prelude.{ℕ, Bool, true, false, ◌&&◌, List, [], ◌∷◌, Option, none, some, ◌==◌, update}
use eneste_rs.Event.{
  Inner, Poll, Waker, Notification, new_with, listen, notify, is_notified, is_terminated, poll,
  drop_listener, drop_event,
}
use eneste_rs.Suite.{run, bool_eq, list_eq, option_eq, poll_eq}
use eneste_rs.Event.Stream.{StreamState, done, stream, poll_next, state_alive}

-- A listener is named by its id, which is the number of listeners before it. A poll is made with a waker,
-- and `woken` are the calls of wakers so far.
pub data Act (T : Type 0) : Type 0 where
  listens : Act T
  notifies : Notification T → Act T
  notified : ℕ → Bool → Act T
  terminated : ℕ → Bool → Act T
  polls : ℕ → Waker → Poll T → Act T
  drops : ℕ → Act T
  drops_event : Act T
  woken : List Waker → Act T
  streams : ℕ → Act T
  polls_stream : ℕ → Waker → Poll (Option T) → Act T

pub record Scene (T : Type 0) : Type 0 where
  pub event : Inner T
  pub handles : ℕ → StreamState

module _ {T : Type 0} (equal : T → T → Bool) where
  -- One call: the state after it, and whether its outcome is the asserted one. A panic fails.
  unfoldable pub act : Act T → Scene T → Scene T × Bool
  act listens x = (record x { event = (listen x.event).0 }, true)
  act (notifies n) x = (record x { event = notify x.event n }, true)
  act (notified id b) x = (x, bool_eq (is_notified x.event id) b)
  act (terminated id b) x = (x, bool_eq (is_terminated x.event id) b)
  act (polls id cx r) x = elim (poll x.event id cx) [
    | none ↦ (x, false)
    | some (e, answer) ↦ (record x { event = e }, poll_eq equal answer r)
  ]
  act (drops id) x = (record x { event = drop_listener x.event id }, true)
  act drops_event x = (record x { event = drop_event x.event }, true)
  act (woken ws) x = (x, list_eq (λ a b. a == b) x.event.woken ws)
  act (streams s) x =
      let (e, st) = stream x.event in (record { event = e; handles = update x.handles s st }, true)
  act (polls_stream s cx r) x = elim (poll_next state_alive 4 x.event (x.handles s) cx) [
    | none ↦ (x, false)
    | some (e, st, answer) ↦
        (record { event = e; handles = update x.handles s st }, poll_eq (option_eq equal) answer r)
  ]

  unfoldable pub passes : List (Act T) → Bool
  passes script = run act script (record { event = new_with; handles = λ s. done })
