-- ===== src/WaitGroup/Tests.antt =====
-- A wait group with two tickets (src/waitgroup.rs), and the theorems at the states of its run.
use eneste_rs.Prelude.{◌≤◌, ◌≡◌, refl, [], ◌∷◌, ◌++◌, some, arith, usize_add, if◌then◌else◌, ◌==◌}
use eneste_rs.Event.Map.{get, insert, set_value}
use eneste_rs.Event.{ready, pending, new_with, listen, poll, is_closed}
use eneste_rs.Event.Stream.{stream, poll_next}
use eneste_rs.WaitGroup.{
  WaitGroup, WaitState, new, add, len, is_empty, drop_ticket, wait_poll, wait_loop,
}
use eneste_rs.WaitGroup.System.{
  World, Reach, created, after, begins, adds, polls, wait_ready_at_zero, sleeper_is_woken,
}

abbrev Run : Type 0
Run = (s : World) × Reach s

-- Two tickets are out, and the future of `wait` sleeps.
asleep : Run
unfolding new new_with add usize_add wait_poll is_empty stream listen insert wait_loop poll_next
    poll get set_value is_closed
asleep = (
  _,
  after (after (after (after created (adds (omega arith))) (adds (omega arith))) (begins refl))
      (polls 3 9 (ground arith) (omega arith) refl),
)

asleep_len : len asleep.0.group ≡ 2
unfolding asleep len
asleep_len = refl

wait_ready_at_zero_example :
    (g : WaitGroup) × (w : WaitState) × (wait_poll 2 asleep.0.group asleep.0.waiter 9
      ≡ some (g, w, if asleep.0.live == 0 then ready tt else pending))
unfolding asleep
wait_ready_at_zero_example = wait_ready_at_zero 0 9 asleep.1 (ground arith) (omega arith)

sleeper_is_woken_example :
    (1 ≤ asleep.0.live)
    × ((drop_ticket asleep.0.group).event.woken ≡ asleep.0.group.event.woken ++ 9 ∷ [])
unfolding asleep
sleeper_is_woken_example = sleeper_is_woken 0 9 asleep.1 refl refl
