-- ===== src/Spawner/Tests.antt =====
-- Tasks of src/spawner.rs that own a counter weakly, and the future `Next` of src/util.rs.
use eneste_rs.Prelude.{ℕ, ◌≡◌, refl, List, [], ◌∷◌, Option, none, some, ◌==◌, if◌then◌else◌}
use eneste_rs.Event.{Poll, ready, pending, Waker}
use eneste_rs.Spawner.{
  SpawnWith, Argument, owned, reference, spawn_with, spawn_task, spawn_with_poll, await_task,
  handle, drop_argument,
}
use eneste_rs.Spawner.Owner.{queue}
use eneste_rs.Upgrade.{Store, Value, downgrade, drop, upgrade, upgrade_weak}
use eneste_rs.Util.{next_poll}

-- Allocation 1 has one owner.
abbrev counts : Store
counts a = if a == 1 then 1 else 0

-- A future that keeps its value, and is ready at the second poll; then it drops the value.
unfoldable second_time : Store → ℕ × Value → Waker → Store × (ℕ × Value) × Poll (Unit {0})
second_time s (n, v) cx = if n == 0 then (s, (1, v), pending) else (drop v s, (n, v), ready tt)

-- The counts after the call, and what the task is after its first poll.
unfoldable spawned : Argument → ℕ × Option (Store × SpawnWith (ℕ × Value) × Poll (Unit {0}))
unfolding queue spawn_with spawn_task spawn_with_poll await_task handle drop_argument
spawned value =
    let (t, tasks, task) = spawn_with queue second_time counts tt value (λ this s v. (s, (0, v))) in
    (t 1, task t 7)

owners : Option (Store × SpawnWith (ℕ × Value) × Poll (Unit {0})) → ℕ × Option (Poll (Unit {0}))
owners none = (0, none)
owners (some (s, f, r)) = (s 1, some r)

-- By reference: the call leaves the counts as they are, and the task owns the value from its first poll.
by_reference : (spawned (reference (Value.rc 1))).0 ≡ 1
unfolding spawned
by_reference = refl

by_reference_runs : owners (spawned (reference (Value.rc 1))).1 ≡ (2, some pending)
unfolding owners spawned second_time downgrade upgrade upgrade_weak
by_reference_runs = refl

-- By value: the last owner is gone, and the task returns at once.
by_value : owners (spawned (owned (Value.rc 1))).1 ≡ (0, some (ready tt))
unfolding owners spawned second_time downgrade upgrade upgrade_weak drop
by_value = refl

unfoldable from_list : List ℕ → Waker → List ℕ × Poll (Option ℕ)
from_list [] cx = ([], ready none)
from_list (x ∷ xs) cx = (xs, ready (some x))

next_takes_the_first : next_poll from_list (1 ∷ 2 ∷ []) 7 ≡ (2 ∷ [], ready (some 1))
unfolding next_poll from_list
next_takes_the_first = refl

next_ends : next_poll from_list [] 7 ≡ ([], ready none)
unfolding next_poll from_list
next_ends = refl
