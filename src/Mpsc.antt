-- ===== src/Mpsc.antt =====
-- src/channel/mpsc.rs: the bounded channel. The shared `State`, which the receiver owns and the senders
-- know by weak handles, is passed from call to call.
pub mod Order
pub mod Receiver
pub mod Senders
pub mod Wakeup
pub mod Blocked
pub mod Closing
mod Tests
use eneste_rs.Prelude.{
  ℕ, zero, suc, Bool, true, false, List, [], ◌∷◌, ◌++◌, Option, none, some, ltb, leb, ◌==◌,
  if◌then◌else◌, length, usize_add, usize_sub, usize_max,
}
use eneste_rs.Channel.{ChannelResult, ok, channel_error}
use eneste_rs.Event.{
  Inner, Poll, ready, pending, Waker, new_with, listen, notify, usize, drop_event, drop_listener,
  poll as poll_listener,
}

-- `State`. `alive` says that the receiver, its only strong owner, has not been dropped.
pub record Channel (T : Type 0) : Type 0 where
  pub receiver_event : Inner (Unit {0})
  pub sender_event : Inner (Unit {0})
  pub queue : List T
  pub max_queue_size : ℕ
  pub senders : ℕ
  pub alive : Bool

-- `SendState` and `ReceiverState`
pub data WaitState : Type 0 where
  waiting : ℕ → WaitState
  idle : WaitState

-- `Result<(), T>` of `try_send`
pub data TrySend (T : Type 0) : Type 0 where
  accepted : TrySend T
  rejected : T → TrySend T

abbrev pub is_nil {ℓ} : {A : Type ℓ} → List A → Bool
is_nil [] = true
is_nil (x ∷ xs) = false

-- The drop of the listener in a `ReceiverState`
unfoldable pub drop_recv_state : Inner (Unit {0}) → WaitState → Inner (Unit {0})
drop_recv_state e (waiting id) = drop_listener e id
drop_recv_state e idle = e

module _ {T : Type 0} where
  unfoldable pub channel : ℕ → Channel T
  channel max_queue_size = record {
    receiver_event = new_with;
    sender_event = new_with;
    queue = [];
    max_queue_size = max_queue_size;
    senders = 1;
    alive = true;
  }

  -- `push_back`, and the notification of the receiver if the queue was empty.
  unfoldable pub push : Channel T → T → Channel T
  push c v = record c {
    queue = c.queue ++ v ∷ [];
    receiver_event = if is_nil c.queue then notify c.receiver_event (usize 1) else c.receiver_event;
  }

  unfoldable pub try_send : Channel T → T → Channel T × TrySend T
  unfolding push
  try_send c v =
      if c.alive
      then if ltb (length c.queue) c.max_queue_size then (push c v, accepted) else (c, rejected v)
      else (c, rejected v)

  -- `Sender::is_closed`
  unfoldable pub sender_is_closed : Channel T → Bool
  sender_is_closed c = if c.alive then c.senders == 0 else true

  -- `Sender::drop`
  unfoldable pub drop_sender : Channel T → Channel T
  drop_sender c =
      let left = usize_sub c.senders 1 in
      if c.alive
      then record c {
        senders = left;
        receiver_event =
            if left == 0 then notify c.receiver_event (usize usize_max) else c.receiver_event;
      }
      else c

  -- `Sender::clone`
  unfoldable pub clone_sender : Channel T → Channel T
  clone_sender c = if c.alive then record c { senders = usize_add c.senders 1 } else c

  -- `Sender::send`: the state and the value of a future that has not been polled.
  unfoldable pub send : T → WaitState × Option T
  send value = (idle, some value)

  -- `Send::poll`; a loop on fuel. `none` is a panic, of the listener or of the `expect`, or the end of
  -- the fuel. The future keeps its state and its value.
  unfoldable pub send_poll :
      ℕ
      → Channel T
      → WaitState
      → Option T
      → Waker
      → Option (Channel T × WaitState × Option T × Poll (ChannelResult (Unit {0})))
  unfolding push
  send_poll zero c st value cx = none
  send_poll (suc fuel) c (waiting id) value cx = elim (poll_listener c.sender_event id cx) [
    | none ↦ none
    | some (e, ready u) ↦
        send_poll fuel (record c { sender_event = drop_listener e id }) idle value cx
    | some (e, pending) ↦ some (record c { sender_event = e }, waiting id, value, pending)
  ]
  send_poll (suc fuel) c idle value cx =
      let (e, id) = listen c.sender_event in
      let again = send_poll fuel (record c { sender_event = e }) (waiting id) value cx in
      if c.alive
      then if ltb (length c.queue) c.max_queue_size
        then elim value [ none ↦ none | some v ↦ some (push c v, idle, none, ready (ok tt)) ]
        else again
      else some (c, idle, value, ready channel_error)

  -- The drop of a `Send` future drops its listener.
  unfoldable pub drop_send : Channel T → WaitState → Channel T
  drop_send c (waiting id) = record c { sender_event = drop_listener c.sender_event id }
  drop_send c idle = c

  -- `Receiver::is_empty`, `is_full` and `is_closed`
  unfoldable pub is_empty : Channel T → Bool
  is_empty c = is_nil c.queue

  unfoldable pub is_full : Channel T → Bool
  is_full c = leb c.max_queue_size (length c.queue)

  unfoldable pub receiver_is_closed : Channel T → Bool
  receiver_is_closed c = c.senders == 0

  -- `Receiver::poll_next`; a loop on fuel.
  unfoldable pub recv_poll :
      ℕ → Channel T → WaitState → Waker → Option (Channel T × WaitState × Poll (Option T))
  recv_poll zero c st cx = none
  recv_poll (suc fuel) c (waiting id) cx = elim (poll_listener c.receiver_event id cx) [
    | none ↦ none
    | some (e, ready u) ↦ recv_poll fuel (record c { receiver_event = drop_listener e id }) idle cx
    | some (e, pending) ↦ some (record c { receiver_event = e }, waiting id, pending)
  ]
  recv_poll (suc fuel) c idle cx =
      let (e, id) = listen c.receiver_event in
      let again = recv_poll fuel (record c { receiver_event = e }) (waiting id) cx in
      elim c.queue [
        | v ∷ rest ↦ some (
          record c {
            queue = rest;
            sender_event =
                if length c.queue == c.max_queue_size
                then notify c.sender_event (usize 1)
                else c.sender_event;
          },
          idle,
          ready (some v),
        )
        | [] ↦ if c.senders == 0 then some (c, idle, ready none) else again
      ]

  -- The drop of the receiver: every waiting sender is notified, and then the state is dropped with its
  -- events, and after it the receiver's listener.
  unfoldable pub drop_receiver : Channel T → WaitState → Channel T
  unfolding drop_recv_state
  drop_receiver c st = record c {
    receiver_event = drop_recv_state (drop_event c.receiver_event) st;
    sender_event = drop_event (notify c.sender_event (usize usize_max));
    queue = [];
    alive = false;
  }
