-- ===== src/Spawner.antt =====
-- src/spawner.rs: the spawner extensions. `LocalSpawner::spawn` is a parameter, and so are the closure
-- that makes a future and the poll of that future.
pub mod Owner
mod Tests
use eneste_rs.Prelude.{Option, none, some}
use eneste_rs.Event.{Poll, ready, pending, Waker}
use eneste_rs.Upgrade.{Store, Value, Handle, downgrade, drop, upgrade}

-- The future of `spawn_with`: the value is not upgraded yet, or it was and gave the future `U`, or the
-- future came to its end.
pub data SpawnWith (U : Type 0) : Type 0 where
  unstarted : Handle → SpawnWith U
  running : U → SpawnWith U
  returned : SpawnWith U

-- `LocalSpawner::spawn`, at one type of futures; it may poll the future. Every call and every poll starts
-- with the strong counts of the moment.
abbrev pub Spawn : Type 0 → Type 0 → Type 0 → Type 0
Spawn Tasks Task F =
    Store
    → Tasks
    → F
    → (Store → F → Waker → Option (Store × F × Poll (Unit {0})))
    → Store × Tasks × Task

-- The argument `value` of `spawn_with`: a value, which is dropped when the call returns, or a reference.
pub data Argument : Type 0 where
  owned : Value → Argument
  reference : Value → Argument

unfoldable pub handle : Argument → Handle
handle (owned v) = downgrade v
handle (reference v) = downgrade v

unfoldable pub drop_argument : Argument → Store → Store
drop_argument (owned v) s = drop v s
drop_argument (reference v) s = s

module _ {U : Type 0} (poll_task : Store → U → Waker → Store × U × Poll (Unit {0})) where
  -- The future that `map` gave is awaited.
  unfoldable pub await_task : Store → U → Waker → Option (Store × SpawnWith U × Poll (Unit {0}))
  await_task s u cx =
      let (t, v, r) = poll_task s u cx in
      elim r [ ready x ↦ some (t, returned, ready tt) | pending ↦ some (t, running v, pending) ]

  -- The poll of the `async` block of `spawn_with`; `none` is the panic of a poll after the end.
  unfoldable pub spawn_with_poll :
      (Store → Value → Store × U)
      → Store
      → SpawnWith U
      → Waker
      → Option (Store × SpawnWith U × Poll (Unit {0}))
  unfolding await_task
  spawn_with_poll map s (unstarted h) cx =
      let (t, r) = upgrade h s in
      elim r [
        | none ↦ some (t, returned, ready tt)
        | some v ↦ let (t', u) = map t v in await_task t' u cx
      ]
  spawn_with_poll map s (running u) cx = await_task s u cx
  spawn_with_poll map s returned cx = none

-- `spawn_task`; the spawner is passed to the closure that makes the future.
unfoldable pub spawn_task :
    {Tasks Task F : Type 0}
    → Spawn Tasks Task F
    → (Store → F → Waker → Option (Store × F × Poll (Unit {0})))
    → Store
    → Tasks
    → (Tasks → F)
    → Store × Tasks × Task
spawn_task spawn poll s spawner task = spawn s spawner (task spawner) poll

-- `spawn_with`
unfoldable pub spawn_with :
    {Tasks Task U : Type 0}
    → Spawn Tasks Task (SpawnWith U)
    → (Store → U → Waker → Store × U × Poll (Unit {0}))
    → Store
    → Tasks
    → Argument
    → (Tasks → Store → Value → Store × U)
    → Store × Tasks × Task
unfolding spawn_task
spawn_with spawn poll_task s spawner value map =
    let (t, tasks, task) =
      spawn_task spawn (spawn_with_poll poll_task (map spawner)) s spawner
        (λ this. unstarted (handle value)) in
    (drop_argument value t, tasks, task)
