-- ===== src/Suite/Cells.antt =====
-- The unit tests of src/cell.rs and src/ref_cell.rs: the calls of the streams of cells.
pub mod Plain
pub mod Guarded
use eneste_rs.Prelude.{ℕ, Bool, true, false, Option, none, some}
use eneste_rs.Event.{Inner, Poll, Waker}
use eneste_rs.Event.Stream.{StreamState, poll_next, state_alive}
use eneste_rs.Suite.{option_eq, poll_eq, unit_eq}

-- A poll of the stream of a cell, and whether its answer is the asserted one. A panic fails.
unfoldable pub answers :
    Inner (Unit {0})
    → StreamState
    → Waker
    → Poll (Option (Unit {0}))
    → Inner (Unit {0}) × StreamState × Bool
answers e s cx r = elim (poll_next state_alive 4 e s cx) [
  | none ↦ (e, s, false)
  | some (e', st, answer) ↦ (e', st, poll_eq (option_eq unit_eq) answer r)
]
