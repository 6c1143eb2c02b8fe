-- ===== src/Util.antt =====
-- src/util.rs: the future `Next` of a stream, which is a parameter.
use eneste_rs.Prelude.{Option}
use eneste_rs.Event.{Poll, Waker}

-- `Next::poll`; the future has no state of its own, and dropping it leaves the stream as it is.
unfoldable pub next_poll :
    {S T : Type 0} → (S → Waker → S × Poll (Option T)) → S → Waker → S × Poll (Option T)
next_poll poll_stream s cx = poll_stream s cx
