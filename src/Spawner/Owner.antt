-- ===== src/Spawner/Owner.antt =====
-- When the closure of `spawn_with` (src/spawner.rs) is called: at the first poll, if the value is alive.
use eneste_rs.Prelude.{ℕ, ◌+◌, ◌≡◌, ◌⊎◌, true, false, Option, some, arith, inl, inr}
use eneste_rs.Event.{Poll, ready, Waker}
use eneste_rs.Spawner.{
  SpawnWith, unstarted, returned, await_task, spawn_with_poll, Spawn, owned, spawn_with, spawn_task,
  handle, drop_argument,
}
use eneste_rs.Upgrade.{Store, Value, Handle, downgrade, drop, upgrade}
use eneste_rs.Upgrade.Counts.{refs, alive}
use eneste_rs.Upgrade.Laws.{upgrade_all_or_nothing}

module _ {U : Type 0} (poll_task : Store → U → Waker → Store × U × Poll (Unit {0}))
    (map : Store → Value → Store × U) (s : Store) (cx : Waker) where
  -- The first poll either upgrades the handle, gives the value to the closure and polls its future, or it
  -- returns at once: then the closure was not called, and the strong counts are as before.
  pub first_poll :
      (h : Handle)
      → ((alive h s ≡ true)
          × ((v : Value) × (t : Store) × (downgrade v ≡ h)
              × ((a : ℕ) → t a ≡ s a + refs v a)
              × (spawn_with_poll poll_task map s (unstarted h) cx
                  ≡ await_task poll_task (map t v).0 (map t v).1 cx)))
        ⊎ ((alive h s ≡ false)
            × (spawn_with_poll poll_task map s (unstarted h) cx ≡ some (s, returned, ready tt)))
  unfolding spawn_with_poll
  first_poll h = elim (upgrade_all_or_nothing h s) [
    | inl (f, (v, t, e, back, added, whole)) ↦ inl (f, (v, t, back, added, ground (arith, e)))
    | inr (f, e) ↦ inr (f, ground (arith, e))
  ]

-- A task that was not polled yet, by its poll
abbrev pub Queued : Type 0 → Type 0
Queued U = Store → Waker → Option (Store × SpawnWith U × Poll (Unit {0}))

-- A spawner that only queues
unfoldable pub queue : {U : Type 0} → Spawn (Unit {0}) (Queued U) (SpawnWith U)
queue s tasks future poll = (s, tasks, λ t cx. poll t future cx)

module _ {U : Type 0} (poll_task : Store → U → Waker → Store × U × Poll (Unit {0}))
    (map : Unit {0} → Store → Value → Store × U) where
  -- The last owner of an allocation, given to `spawn_with` by value, is dropped when the call returns. The
  -- closure is never called, and the task returns at its first poll.
  pub last_owner-returned :
      (s : Store) (a : ℕ) (cx : Waker)
      → s a ≡ 1
      → (spawn_with queue poll_task s tt (owned (Value.rc a)) map).2
          (spawn_with queue poll_task s tt (owned (Value.rc a)) map).0
          cx
        ≡ some ((spawn_with queue poll_task s tt (owned (Value.rc a)) map).0, returned, ready tt)
  unfolding queue spawn_with spawn_task spawn_with_poll handle drop_argument downgrade drop upgrade
  last_owner-returned s a cx h = ground (arith, h)
