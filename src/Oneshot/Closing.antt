-- ===== src/Oneshot/Closing.antt =====
-- The two ends of a oneshot channel (src/channel/oneshot.rs): waking the receiver.
use eneste_rs.Prelude.{ℕ, ◌≡◌, [], ◌∷◌, ◌++◌, append-nil, none, some, arith}
use eneste_rs.Channel.{ok, channel_error}
use eneste_rs.Event.{
  Inner, ready, Waker, notify, notify_inner, notify_count, notify_loop, usize, drop_event,
  take_wakers,
}
use eneste_rs.Event.Listener.{waiting_entry}
use eneste_rs.Oneshot.{empty, full, Channel, drop_sender, send, poll}

-- A notification of the only listener, and then the drop of the event, wake it once.
woken_once :
    (e : Inner (Unit {0})) (id : ℕ) (w : Waker)
    → e.notified ≡ 0
    → e.listeners ≡ (id, waiting_entry (some w)) ∷ []
    → (drop_event (notify e (usize 1))).woken ≡ e.woken ++ w ∷ []
unfolding drop_event take_wakers notify notify_inner notify_count notify_loop usize
woken_once e id w z l = ground (arith, append-nil (e.woken ++ w ∷ []))

module _ {T : Type 0} where
  -- When the receiver sleeps on an empty channel and the sender sends `v`, or is dropped without a send,
  -- the receiver is woken once, and its next poll yields `v`, or the error.
  pub receiver_woken :
      (c : Channel T) (v : T) (w cx : Waker)
      → c.state ≡ empty
      → c.event.notified ≡ 0
      → c.event.listeners ≡ (c.listener, waiting_entry (some w)) ∷ []
      → (c' : Channel T) × (send c v ≡ some (c', ok tt))
        × (c'.event.woken ≡ c.event.woken ++ w ∷ [])
        × (poll c' cx ≡ some (record c' { value = none; state = empty }, ready (ok v)))
        × ((drop_sender c).event.woken ≡ c.event.woken ++ w ∷ [])
        × (poll (drop_sender c) cx ≡ some (drop_sender c, ready channel_error))
  unfolding send drop_sender poll
  receiver_woken c v w cx e z l =
      let sent = record c { value = some v; state = full; event = notify c.event (usize 1) } in
      (
        drop_sender sent,
        ground arith,
        woken_once c.event c.listener w z l,
        ground arith,
        ground (arith, woken_once c.event c.listener w z l),
        ground arith,
      )
