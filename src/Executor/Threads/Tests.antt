-- ===== src/Executor/Threads/Tests.antt =====
-- Two threads wake one task of src/executor.rs at once, and the theorems at a state of the run.
use eneste_rs.Prelude.{ℕ, ◌+◌, ◌≡◌, refl, true, [], ◌∷◌, arith, sum_below}
use eneste_rs.Event.Counts.{one_if}
use eneste_rs.Executor.Threads.{
  World, Reach, created, wakes_on, executes, start, calls, sees_live, sees_open, claims, locks,
  pushes, releases, rings, finds_queued, locks_inbox, drains, picks, clears, cancels, closes,
  locks_to_discard, discards, leaves,
}
use eneste_rs.Executor.Threads.Counting.{holds_inbox, will_ring, on_its_way}
use eneste_rs.Executor.Threads.Safety.{inbox_excludes, queued_is_on_its_way}

abbrev Run : Type 0
Run = (w : World) × Reach 2 w

-- Both threads have seen the task unqueued and the executor open; thread 1 sets the flag first and is in
-- the critical section, and thread 0 finds the flag set.
racing : Run
unfolding start
racing = (
  _,
  wakes_on
      (wakes_on
        (wakes_on
          (wakes_on
            (wakes_on
              (wakes_on
                (wakes_on
                  (wakes_on (wakes_on created (calls 0 5 (omega arith) refl))
                    (calls 1 5 (omega arith) refl))
                  (sees_live 0 5 (omega arith) refl refl))
                (sees_live 1 5 (omega arith) refl refl))
              (sees_open 0 5 (omega arith) refl refl))
            (sees_open 1 5 (omega arith) refl refl))
          (claims 1 5 (omega arith) refl refl))
        (finds_queued 0 5 (omega arith) refl refl))
      (locks 1 5 (omega arith) refl refl),
)

-- The push and the call of the notifier, and a round of the executor up to the poll.
polled : Run
unfolding racing
polled = (
  _,
  executes
      (executes
        (executes
          (executes
            (executes
              (wakes_on
                (wakes_on (wakes_on racing.1 (pushes 1 5 (omega arith) refl))
                  (releases 1 (omega arith) refl))
                (rings 1 (omega arith) refl))
              (locks_inbox 9 refl refl refl))
            (drains 9 refl))
          (leaves refl))
        (picks 5 [] refl refl refl))
      (clears 5 refl),
)

polled_once : (polled.0.inbox ≡ []) × (polled.0.held ≡ []) × (polled.0.wakes ≡ 1)
unfolding polled
polled_once = (refl, refl, refl)

inbox_excludes_example :
    (◌≡◌ {A = ℕ} 1 1) × (racing.0.locked ≡ true) × (holds_inbox racing.0.executor ≡ 0)
unfolding racing
inbox_excludes_example = inbox_excludes 2 1 1 racing.1 (omega arith) (omega arith) refl refl

queued_is_on_its_way_example :
    (on_its_way 2 5 racing.0 ≡ one_if (racing.0.headers 5).queued)
    × (racing.0.pushed ≡ racing.0.wakes + sum_below will_ring 2 racing.0.threads)
unfolding racing
queued_is_on_its_way_example = queued_is_on_its_way 2 5 racing.1 refl refl

-- A thread has seen the executor open, and then the executor is dropped, with its inbox and its task. The
-- wake-up that is under way still ends up in the inbox, which nobody empties any more, and its header
-- keeps `Shared`, and so itself, alive.
late : Run
unfolding start
late = (
  _,
  wakes_on
      (wakes_on
        (wakes_on
          (executes
            (executes
              (executes
                (executes
                  (executes
                    (wakes_on
                      (wakes_on (wakes_on created (calls 0 5 (omega arith) refl))
                        (sees_live 0 5 (omega arith) refl refl))
                      (sees_open 0 5 (omega arith) refl refl))
                    (closes refl refl))
                  (locks_to_discard refl refl refl))
                (discards refl))
              (leaves refl))
            (cancels 5))
          (claims 0 5 (omega arith) refl refl))
        (locks 0 5 (omega arith) refl refl))
      (pushes 0 5 (omega arith) refl),
)

late_push : (late.0.closed ≡ true) × (late.0.inbox ≡ 5 ∷ [])
unfolding late
late_push = (refl, refl)
