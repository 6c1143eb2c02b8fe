-- ===== src/Suite/Channels/Mpsc.antt =====
-- The unit tests of src/channel/mpsc.rs: calls on one channel, its senders and `Send` futures, and its
-- receiver.
pub mod Sending
pub mod Ends
use eneste_rs.Prelude.{
  ℕ, Bool, true, false, List, [], ◌∷◌, Option, none, some, ◌==◌, ◌≡◌, refl, ◌&&◌, length, update,
  ltb, leb, usize_add, usize_sub, usize_max, if◌then◌else◌, ◌++◌,
}
use eneste_rs.Channel.{ChannelResult, ok, channel_error}
use eneste_rs.Event.{
  Inner, Poll, ready, pending, Waker, new_with, listen, notify, poll as event_poll, drop_listener,
  notify_inner, notify_count, notify_loop, hand_on, usize, drop_event, take_wakers,
}
use eneste_rs.Event.Map.{get, insert, remove, set_value}
use eneste_rs.Mpsc.{
  Channel, WaitState, idle, waiting, TrySend, accepted, rejected, channel, push, try_send,
  sender_is_closed, drop_sender, clone_sender, send, send_poll, drop_send, is_empty, is_full,
  receiver_is_closed, recv_poll, drop_receiver, drop_recv_state,
}
use eneste_rs.Suite.{run, bool_eq, list_eq, option_eq, poll_eq, unit_eq, all_pass}
use eneste_rs.Suite.Channels.{result_eq}

-- A `Send` future is named by a number. `held` is the number of values in the queue; `sender_woken` and
-- `receiver_woken` are the calls of wakers so far.
pub data Act : Type 0 where
  try_sends : ℕ → TrySend ℕ → Act
  clones : Act
  drops_sender : Act
  sends : ℕ → ℕ → Act
  polls_send : ℕ → Waker → Poll (ChannelResult (Unit {0})) → Act
  drops_send : ℕ → Act
  receives : Waker → Poll (Option ℕ) → Act
  drops_receiver : Act
  sender_closed : Bool → Act
  receiver_closed : Bool → Act
  empty : Bool → Act
  full : Bool → Act
  held : ℕ → Act
  sender_woken : List Waker → Act
  receiver_woken : List Waker → Act

pub record Scene : Type 0 where
  shared : Channel ℕ
  receiver : WaitState
  sending : ℕ → WaitState × Option ℕ

unfoldable pub try_eq : TrySend ℕ → TrySend ℕ → Bool
try_eq accepted accepted = true
try_eq accepted (rejected v) = false
try_eq (rejected v) accepted = false
try_eq (rejected v) (rejected w) = v == w

-- One call: the state after it, and whether its outcome is the asserted one. A panic fails.
unfoldable pub act : Act → Scene → Scene × Bool
act (try_sends v r) x =
    let (c, answer) = try_send x.shared v in (record x { shared = c }, try_eq answer r)
act clones x = (record x { shared = clone_sender x.shared }, true)
act drops_sender x = (record x { shared = drop_sender x.shared }, true)
act (sends k v) x = (record x { sending = update x.sending k (send v) }, true)
act (polls_send k cx r) x = elim (send_poll 3 x.shared (x.sending k).0 (x.sending k).1 cx) [
  | none ↦ (x, false)
  | some (c, st, value, answer) ↦ (
    record x { shared = c; sending = update x.sending k (st, value) },
    poll_eq (result_eq unit_eq) answer r,
  )
]
act (drops_send k) x = (record x { shared = drop_send x.shared (x.sending k).0 }, true)
act (receives cx r) x = elim (recv_poll 3 x.shared x.receiver cx) [
  | none ↦ (x, false)
  | some (c, st, answer) ↦
      (record x { shared = c; receiver = st }, poll_eq (option_eq (λ a b. a == b)) answer r)
]
act drops_receiver x =
    (record x { shared = drop_receiver x.shared x.receiver; receiver = idle }, true)
act (sender_closed b) x = (x, bool_eq (sender_is_closed x.shared) b)
act (receiver_closed b) x = (x, bool_eq (receiver_is_closed x.shared) b)
act (empty b) x = (x, bool_eq (is_empty x.shared) b)
act (full b) x = (x, bool_eq (is_full x.shared) b)
act (held n) x = (x, length x.shared.queue == n)
act (sender_woken ws) x = (x, list_eq (λ a b. a == b) x.shared.sender_event.woken ws)
act (receiver_woken ws) x = (x, list_eq (λ a b. a == b) x.shared.receiver_event.woken ws)

-- A script begins with the size of its channel.
abbrev pub Script : Type 0
Script = ℕ × List Act

unfoldable pub passes : Script → Bool
passes (size, script) =
    run act script (record { shared = channel size; receiver = idle; sending = λ k. (idle, none) })

abbrev pub got : ℕ → Act
got v = receives 0 (ready (some v))

abbrev pub ended : Act
ended = receives 0 (ready none)

abbrev pub nothing : Act
nothing = receives 0 pending
