-- ===== src/Emitter/Weakly/Owner.antt =====
-- What the closures of `listen_with`, `listen_with_this` and `listen_with_this_and` (src/emitter.rs) are
-- called with, and when they are not called.
use eneste_rs.Prelude.{
  ℕ, ◌+◌, ◌<◌, ◌≡◌, ◌∙◌, Bool, true, false, ◌&&◌, List, ◌∷◌, Option, some, arith, inl, inr, length,
}
use eneste_rs.Event.{Poll, ready, Waker}
use eneste_rs.Emitter.{Listener, listener_poll}
use eneste_rs.Emitter.Handling.{until, Yields, listener_poll_lem}
use eneste_rs.Emitter.Weakly.{
  with_handle, and_handle, listen, listen_with_this, listen_with_this_and,
}
use eneste_rs.Upgrade.{Store, Value, Handle, downgrade, upgrade}
use eneste_rs.Upgrade.Counts.{alive, upgrade-cases}
use eneste_rs.Upgrade.Laws.{upgrade_all_or_nothing}

module _ {M T : Type 0} where
  -- The closure of `listen_with_this_and`, as one on the pair of both values
  unfoldable pub of_pair :
      (Store × M → Value → Value → T → (Store × M) × Bool)
      → Store × M
      → Value
      → T
      → (Store × M) × Bool
  of_pair map x (Value.pair v w) event = map x v w event
  of_pair map x (Value.rc a) event = (x, false)
  of_pair map x (Value.weak a) event = (x, false)
  of_pair map x (Value.primitive n) event = (x, false)
  of_pair map x Value.nothing event = (x, false)
  of_pair map x (Value.just v) event = (x, false)
  of_pair map x (Value.single v) event = (x, false)

  -- Upgrading one handle, and then the other inside the call, is upgrading the pair of them.
  pub and_handle_lem :
      (map : Store × M → Value → Value → T → (Store × M) × Bool) (h k : Handle) (x : Store × M)
      (event : T)
      → with_handle (and_handle map k) h x event
        ≡ with_handle (of_pair map) (Handle.pair h k) x event
  unfolding with_handle and_handle of_pair upgrade
  and_handle_lem map h k x event = elim (upgrade-cases h x.0) [
    | inr (t, e, f, r) ↦ ground (arith, e)
    | inl (t, v, e, f, r) ↦ elim (upgrade-cases k t) [
      | inl (u, w, e', f', r') ↦ ground (arith, e, e')
      | inr (u, e', f', r') ↦ ground (arith, e, e')
    ]
  ]

  pub with_handle-gone :
      (map : Store × M → Value → T → (Store × M) × Bool) (h : Handle) (x : Store × M) (event : T)
      → alive h x.0 ≡ false
      → with_handle map h x event ≡ (x, false)
  unfolding with_handle
  with_handle-gone map h x event d = elim (upgrade_all_or_nothing h x.0) [
    | inl (f, p) ↦ ground (arith, d, f)
    | inr (f, e) ↦ ground (arith, e)
  ]

module _ {S T : Type 0} (poll_stream : S → Waker → S × Poll (Option T)) (cx : Waker)
    {M : Type 0} where
  stops_at_once :
      (fuel : ℕ) (subscription : S) (x : Store × M) (call : Store × M → T → (Store × M) × Bool)
      (event : T) (events : List T) (end : Bool)
      → Yields poll_stream cx subscription (event ∷ events) end
      → length events + 2 < fuel
      → call x event ≡ (x, false)
      → (l : Listener S (Store × M)) × (listener_poll poll_stream call fuel
            (record { stream = subscription; map = x; finished = false })
            cx
          ≡ some (l, ready tt))
        × (l.map ≡ x)
        × (l.finished ≡ true)
  unfolding until
  stops_at_once fuel subscription x call event events end y h q =
      let p =
        listener_poll_lem poll_stream cx call fuel subscription x (event ∷ events) end y
          (ground arith) in
      (p.0, ground (arith, q, p), ground (arith, q, p), ground (arith, q, p))

  -- The listener that `listen_with_this_and` spawns, when it is polled by the spawner: if the target or
  -- the other value is gone by then, and its stream has an event, it is ready and finished, whatever the
  -- stream yields after it. The closure was not called, its state and all strong counts are as before:
  -- a value that was upgraded first has been dropped.
  pub stops_without_owner :
      (fuel : ℕ) (subscription : S) (this value : Value) (x : Store × M)
      (map : Store × M → Value → Value → T → (Store × M) × Bool) (event : T) (events : List T)
      (end : Bool)
      → Yields poll_stream cx subscription (event ∷ events) end
      → length events + 2 < fuel
      → (alive (downgrade this) x.0 && alive (downgrade value) x.0) ≡ false
      → (l : Listener S (Store × M)) × ((listen_with_this_and poll_stream fuel
            (λ tasks future poll. (tasks, poll future cx))
            tt
            subscription
            this
            value
            x
            map).1
          ≡ some (l, ready tt))
        × (l.map ≡ x)
        × (l.finished ≡ true)
  unfolding listen listen_with_this listen_with_this_and
  stops_without_owner fuel subscription this value x map event events end y h d =
      stops_at_once fuel subscription x
        (with_handle (and_handle map (downgrade value)) (downgrade this)) event events end y h
        (and_handle_lem map (downgrade this) (downgrade value) x event
          ∙ with_handle-gone (of_pair map) (Handle.pair (downgrade this) (downgrade value)) x event
              d)
