-- ===== src/Oneshot.antt =====
-- src/channel/oneshot.rs. The state that sender and receiver share, the sender's event and the
-- receiver's listener are passed from call to call.
pub mod Delivery
pub mod Closing
pub mod Closed
mod Awaiting
mod Tests
use eneste_rs.Prelude.{ℕ, Option, none, some}
use eneste_rs.Channel.{ChannelResult, ok, channel_error}
use eneste_rs.Event.{
  Inner, Poll, ready, pending, Waker, new_with, listen, notify, usize, drop_event, drop_listener,
  poll as poll_listener,
}

pub data ChannelState : Type 0 where
  empty sender_closed receiver_closed full : ChannelState

-- `State`, with the event of `Sender` and the listener of `Receiver`
pub record Channel (T : Type 0) : Type 0 where
  pub value : Option T
  pub state : ChannelState
  pub event : Inner (Unit {0})
  pub listener : ℕ

-- `Option::ok_or(ChannelError)`
abbrev pub ok_or_error : {T : Type 0} → Option T → ChannelResult T
ok_or_error none = channel_error
ok_or_error (some v) = ok v

module _ {T : Type 0} where
  unfoldable pub channel : Channel T
  channel =
      let (e, id) = listen new_with in
      record { value = none; state = empty; event = e; listener = id }

  -- `Sender::drop`, and the drop of the sender's event after it
  unfoldable pub drop_sender : Channel T → Channel T
  drop_sender c = elim c.state [
    | empty ↦ record c { state = sender_closed; event = drop_event (notify c.event (usize 1)) }
    | _ ↦ record c { event = drop_event c.event }
  ]

  -- `Sender::send` takes the sender, which is dropped on return; `none` is the panic of `unreachable!`.
  unfoldable pub send : Channel T → T → Option (Channel T × ChannelResult (Unit {0}))
  unfolding drop_sender
  send c v = elim c.state [
    | empty ↦ some (
      drop_sender (record c { value = some v; state = full; event = notify c.event (usize 1) }),
      ok tt,
    )
    | receiver_closed ↦ some (drop_sender c, channel_error)
    | _ ↦ none
  ]

  -- `Receiver::close`
  unfoldable pub close : Channel T → Channel T
  close c = elim c.state [ empty ↦ record c { state = receiver_closed; value = none } | _ ↦ c ]

  unfoldable pub try_recv : Channel T → Channel T × ChannelResult (Option T)
  try_recv c = elim c.state [
    | full ↦ (record c { value = none; state = empty }, ok c.value)
    | sender_closed ↦ (c, channel_error)
    | receiver_closed ↦ (c, channel_error)
    | empty ↦ (c, ok none)
  ]

  -- The last branch of `Receiver::poll`: whatever the listener says, the receiver is pending.
  unfoldable pub wait : Channel T → Waker → Option (Channel T × Poll (ChannelResult T))
  wait c cx = elim (poll_listener c.event c.listener cx) [
    | none ↦ none
    | some (e, r) ↦ some (record c { event = e }, pending)
  ]

  -- `Receiver::poll`; `none` is the panic of the listener.
  unfoldable pub poll : Channel T → Waker → Option (Channel T × Poll (ChannelResult T))
  unfolding wait
  poll c cx = elim c.state [
    | full ↦ some (record c { value = none; state = empty }, ready (ok_or_error c.value))
    | sender_closed ↦ some (c, ready channel_error)
    | empty ↦ wait c cx
    | receiver_closed ↦ wait c cx
  ]

  -- The drop of the receiver closes it, and then drops its listener.
  unfoldable pub drop_receiver : Channel T → Channel T
  unfolding close
  drop_receiver c =
      let closed = close c in record closed { event = drop_listener closed.event closed.listener }
