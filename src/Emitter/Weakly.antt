-- ===== src/Emitter/Weakly.antt =====
-- The methods of `EventTargetExt` (src/emitter.rs): listeners that know their targets by weak handles.
-- The stream that `subscribe` gives, the spawner and the closure are parameters; the closure's own state
-- is of type `M`. The strong counts are passed with it: a call of the closure starts with those of the
-- moment, and may change them, in particular drop the values it is given.
pub mod Owner
mod Tests
use eneste_rs.Prelude.{ℕ, Bool, false, Option, none, some}
use eneste_rs.Event.{Poll, Waker}
use eneste_rs.Emitter.{Listener, listener_poll}
use eneste_rs.Upgrade.{Store, Value, Handle, downgrade, drop, upgrade}

module _ {M T : Type 0} where
  -- The closure of `listen_with` and `listen_with_this`
  unfoldable pub with_handle :
      (Store × M → Value → T → (Store × M) × Bool) → Handle → Store × M → T → (Store × M) × Bool
  with_handle map h x event =
      let (s, r) = upgrade h x.0 in
      elim r [ none ↦ ((s, x.1), false) | some v ↦ map (s, x.1) v event ]

  -- The closure that `listen_with_this_and` gives to `listen_with_this`: where the second upgrade fails,
  -- the first value is dropped.
  unfoldable pub and_handle :
      (Store × M → Value → Value → T → (Store × M) × Bool)
      → Handle
      → Store × M
      → Value
      → T
      → (Store × M) × Bool
  and_handle map h x this event =
      let (s, r) = upgrade h x.0 in
      elim r [ none ↦ ((drop this s, x.1), false) | some v ↦ map (s, x.1) this v event ]

-- `LocalSpawner::spawn`, at one type of futures
abbrev pub Spawn : Type 0 → Type 0 → Type 0 → Type 0
Spawn Tasks Task F = Tasks → F → (F → Waker → Option (F × Poll (Unit {0}))) → Tasks × Task

module _ {S T Tasks Task : Type 0} (poll_stream : S → Waker → S × Poll (Option T)) (fuel : ℕ) where
  -- `listen`; the new task is the `Listener` and its poll.
  unfoldable pub listen :
      {M : Type 0}
      → Spawn Tasks Task (Listener S M)
      → Tasks
      → S
      → M
      → (M → T → M × Bool)
      → Tasks × Task
  listen spawn spawner subscription m map =
      spawn spawner (record { stream = subscription; map = m; finished = false })
        (λ l cx. listener_poll poll_stream map fuel l cx)

  module _ {M : Type 0} (spawn : Spawn Tasks Task (Listener S (Store × M))) where
    unfoldable pub listen_with :
        Tasks → S → Value → Store × M → (Store × M → Value → T → (Store × M) × Bool) → Tasks × Task
    listen_with spawner subscription value x map =
        listen spawn spawner subscription x (with_handle map (downgrade value))

    -- `this` is the target that is listened to.
    unfoldable pub listen_with_this :
        Tasks → S → Value → Store × M → (Store × M → Value → T → (Store × M) × Bool) → Tasks × Task
    listen_with_this spawner subscription this x map =
        listen spawn spawner subscription x (with_handle map (downgrade this))

    unfoldable pub listen_with_this_and :
        Tasks
        → S
        → Value
        → Value
        → Store × M
        → (Store × M → Value → Value → T → (Store × M) × Bool)
        → Tasks × Task
    listen_with_this_and spawner subscription this value x map =
        listen_with_this spawner subscription this x (and_handle map (downgrade value))
