-- ===== src/Mpsc/Closing.antt =====
-- The drop of the receiver of a bounded channel (src/channel/mpsc.rs) reaches every sender that waits.
use eneste_rs.Prelude.{ℕ, ◌-◌, ◌≤◌, ◌≡◌, refl, [], ◌∷◌, Option, none, some, arith, usize_max}
use eneste_rs.Channel.{channel_error}
use eneste_rs.Event.{
  ListenerEntry, Inner, ready, Waker, notify, usize, drop_event, take_wakers, drop_listener,
}
use eneste_rs.Event.Map.{BTreeMap, get}
use eneste_rs.Event.Sweep.{mark, waiting_entries, waiting-add-notified}
use eneste_rs.Event.Invariant.{Inv, newly, notify_lem}
use eneste_rs.Event.Listener.{waiting_entry, notified_entry, taken, poll-notified}
use eneste_rs.Mpsc.{Channel, WaitState, waiting, idle, rejected, try_send, send_poll, drop_receiver}

module _ {T : Type 0} where
  waiting_pos :
      (m : BTreeMap (ListenerEntry T)) (id : ℕ) (w : Option Waker)
      → get id m ≡ some (waiting_entry w)
      → 1 ≤ waiting_entries m
  unfolding get
  waiting_pos [] id w g = cc
  waiting_pos ((j, x) ∷ m) id w g = ground (arith, waiting_pos m id w)

  get-mark_all :
      (k : ℕ) (tag : T) (m : BTreeMap (ListenerEntry T)) (id : ℕ) (w : Option Waker)
      → waiting_entries m ≤ k
      → get id m ≡ some (waiting_entry w)
      → get id (mark k tag m) ≡ some (notified_entry none tag)
  unfolding get mark
  get-mark_all k tag [] id w h g = cc
  get-mark_all k tag ((j, x) ∷ m) id w h g =
      ground (arith, waiting_pos m id w, get-mark_all k tag m id w, get-mark_all (k - 1) tag m id w)

  get-take_wakers :
      (m : BTreeMap (ListenerEntry T)) (id : ℕ) (tag : T)
      → get id m ≡ some (notified_entry none tag)
      → get id (take_wakers m).0 ≡ some (notified_entry none tag)
  unfolding get take_wakers
  get-take_wakers [] id tag g = cc
  get-take_wakers ((j, x) ∷ m) id tag g = ground (arith, get-take_wakers m id tag)

closed_for_all :
    (e : Inner (Unit {0})) (id : ℕ) (w : Option Waker)
    → Inv e
    → get id e.listeners ≡ some (waiting_entry w)
    → get id (drop_event (notify e (usize usize_max))).listeners ≡ some (notified_entry none tt)
unfolding drop_event usize
closed_for_all e id w v g = rw (notify_lem e (usize usize_max) v (omega arith)) (
    get-take_wakers _ id tt (
      get-mark_all (newly e (usize usize_max)) tt e.listeners id w
        (omega (arith, v.few, v.small, v.counted, waiting-add-notified e.listeners)) g))

module _ {T : Type 0} where
  -- Once the receiver is dropped, every `Send` future that sleeps is notified, and its next poll returns
  -- the error and keeps its value; a later `try_send` gives its value back.
  pub receiver_drop_fails_senders :
      (c : Channel T) (st : WaitState) (id : ℕ) (w : Option Waker) (v : T) (cx : Waker)
      → Inv c.sender_event
      → get id c.sender_event.listeners ≡ some (waiting_entry w)
      → (c' : Channel T) × (send_poll 2 (drop_receiver c st) (waiting id) (some v) cx
          ≡ some (c', idle, some v, ready channel_error))
        × (try_send c' v ≡ (c', rejected v))
  unfolding send_poll drop_receiver try_send
  receiver_drop_fails_senders c st id w v cx i g =
      let e = drop_event (notify c.sender_event (usize usize_max)) in
      let p = poll-notified e id cx none tt (closed_for_all c.sender_event id w i g) in
      let next = record (drop_receiver c st) {
        sender_event = drop_listener (taken e id none) id;
      } in
      (next, rw (p, send_poll) refl, refl)
