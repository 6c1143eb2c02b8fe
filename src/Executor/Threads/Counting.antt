-- ===== src/Executor/Threads/Counting.antt =====
-- Where a task is on its way to be polled: in the inbox, in `tasks_to_run`, or with a thread
-- (src/executor.rs).
use eneste_rs.Prelude.{ℕ, ◌+◌, ◌≤◌, ◌≡◌, Bool, true, false, List, [], ◌==◌, sum_below}
use eneste_rs.Event.Counts.{one_if}
use eneste_rs.Executor.{is_finished}
use eneste_rs.Executor.Invariant.{count}
use eneste_rs.Executor.Threads.{
  WakerAt, away, called, checked, marking, claimed, pushing, releasing, ringing, ExecutorAt,
  resting, draining, discarding, looking, leaving, clearing, polling, World,
}

-- A thread that has set `QUEUED` of a task and not pushed it yet
abbrev pub carries : ℕ → WakerAt → ℕ
carries id away = 0
carries id (called i) = 0
carries id (checked i) = 0
carries id (marking i) = 0
carries id (claimed i) = one_if (i == id)
carries id (pushing i) = one_if (i == id)
carries id releasing = 0
carries id ringing = 0

-- Between the acquisition of the lock of the inbox and its release
abbrev pub in_section : WakerAt → ℕ
in_section away = 0
in_section (called i) = 0
in_section (checked i) = 0
in_section (marking i) = 0
in_section (claimed i) = 0
in_section (pushing i) = 1
in_section releasing = 1
in_section ringing = 0

abbrev pub will_ring : WakerAt → ℕ
will_ring away = 0
will_ring (called i) = 0
will_ring (checked i) = 0
will_ring (marking i) = 0
will_ring (claimed i) = 0
will_ring (pushing i) = 0
will_ring releasing = 1
will_ring ringing = 1

-- The executor's thread between its check of a header and the clearing of its flag
abbrev pub about_to_poll : ℕ → ExecutorAt → ℕ
about_to_poll id resting = 0
about_to_poll id (draining i) = 0
about_to_poll id discarding = 0
about_to_poll id looking = 0
about_to_poll id leaving = 0
about_to_poll id (clearing i) = one_if (i == id)
about_to_poll id (polling i) = 0

abbrev pub holds_inbox : ExecutorAt → ℕ
holds_inbox resting = 0
holds_inbox (draining i) = 1
holds_inbox discarding = 1
holds_inbox looking = 1
holds_inbox leaving = 1
holds_inbox (clearing i) = 0
holds_inbox (polling i) = 0

abbrev pub on_its_way : ℕ → ℕ → World → ℕ
on_its_way n id w =
    count id w.inbox
    + count id w.held
    + about_to_poll id w.executor
    + sum_below (carries id) n w.threads

-- One task.
pub record Sound (n : ℕ) (w : World) (id : ℕ) : Type 0 where
  pub once : on_its_way n id w ≤ 1
  pub flagged : (w.headers id).queued ≡ false → on_its_way n id w ≡ 0
  pub waiting :
      (w.headers id).queued ≡ true
      → is_finished (w.headers id) ≡ false
      → w.closed ≡ false
      → on_its_way n id w ≡ 1

-- The executor drains the inbox for a batch only when the last batch is done, and discards it only when
-- it is closed.
abbrev pub Gate : ExecutorAt → List ℕ → Bool → Type 0
Gate resting held closed = Unit
Gate (draining i) held closed = held ≡ []
Gate discarding held closed = closed ≡ true
Gate looking held closed = Unit
Gate leaving held closed = Unit
Gate (clearing i) held closed = Unit
Gate (polling i) held closed = Unit

-- All of it, with the lock of the inbox and the calls of the notifier.
pub record Inv (n : ℕ) (w : World) : Type 0 where
  pub tasks : (id : ℕ) → Sound n w id
  pub lock : one_if w.locked ≡ holds_inbox w.executor + sum_below in_section n w.threads
  pub bell : w.pushed ≡ w.wakes + sum_below will_ring n w.threads
  pub gate : Gate w.executor w.held w.closed
