-- ===== src/Executor/Threads/Safety.antt =====
-- What every interleaving of wakers and executor keeps (src/executor.rs).
use eneste_rs.Prelude.{
  ℕ, ◌+◌, ◌≤◌, ◌<◌, ◌≡◌, refl, true, false, List, arith, sum_below, sum_below-zero, sum_below-ge,
  sum_below-ge_two, length, min, ap,
}
use native.Mathlib.Decide.{ℕ_discrete}
use eneste_rs.Event.Counts.{one_if}
use eneste_rs.Executor.{is_finished, drain}
use eneste_rs.Executor.Begin.{drain-split}
use eneste_rs.Executor.Invariant.{count, count-append}
use eneste_rs.Executor.Threads.{
  away, World, start, ExecutorStep, locks_inbox, drains, skips, picks, clears, completes, pends,
  cancels, closes, locks_to_discard, discards, locks_to_look, looks, leaves, Reach, created,
  wakes_on, executes,
}
use eneste_rs.Executor.Threads.Counting.{
  carries, in_section, will_ring, holds_inbox, on_its_way, Inv,
}
use eneste_rs.Executor.Threads.Schedule.{WakerStep-Inv}

count-drain :
    (j m : ℕ) (xs : List ℕ)
    → m ≤ length xs
    → count j (drain m xs).0 + count j (drain m xs).1 ≡ count j xs
count-drain j m xs h =
    omega (arith, count-append j (drain m xs).0 (drain m xs).1, ap (count j) (drain-split m xs h))

ExecutorStep-Inv : (n : ℕ) {w u : World} → ExecutorStep w u → Inv n w → Inv n u
ExecutorStep-Inv n (locks_inbox c p h q) v = record {
  tasks = λ j. ground (arith, v.tasks j);
  lock = ground (arith, v.lock);
  bell = v.bell;
  gate = h;
}
ExecutorStep-Inv n {w} (drains c p) v = record {
  tasks = λ j.
      ground
        (arith, v.tasks j, v.gate, p, count-drain j (min c (length w.inbox)) w.inbox (omega arith));
  lock = ground (arith, v.lock);
  bell = v.bell;
  gate = tt;
}
ExecutorStep-Inv n (skips id rest p h f) v = record {
  tasks = λ j. ground (arith, v.tasks j);
  lock = v.lock;
  bell = v.bell;
  gate = rw p tt;
}
ExecutorStep-Inv n (picks id rest p h f) v = record {
  tasks = λ j. ground (arith, v.tasks j);
  lock = ground (arith, v.lock);
  bell = v.bell;
  gate = tt;
}
ExecutorStep-Inv n (clears id p) v = record {
  tasks = λ j. ground (arith, v.tasks j);
  lock = ground (arith, v.lock);
  bell = v.bell;
  gate = tt;
}
ExecutorStep-Inv n (completes id p) v = record {
  tasks = λ j. ground (arith, v.tasks j);
  lock = ground (arith, v.lock);
  bell = v.bell;
  gate = tt;
}
ExecutorStep-Inv n (pends id p) v = record {
  tasks = λ j. ground (arith, v.tasks j);
  lock = ground (arith, v.lock);
  bell = v.bell;
  gate = tt;
}
ExecutorStep-Inv n (cancels id) v = record {
  tasks = λ j. ground (arith, v.tasks j);
  lock = v.lock;
  bell = v.bell;
  gate = v.gate;
}
ExecutorStep-Inv n (closes p h) v = record {
  tasks = λ j. ground (arith, v.tasks j);
  lock = v.lock;
  bell = v.bell;
  gate = rw p tt;
}
ExecutorStep-Inv n (locks_to_discard p c q) v = record {
  tasks = λ j. ground (arith, v.tasks j);
  lock = ground (arith, v.lock);
  bell = v.bell;
  gate = c;
}
ExecutorStep-Inv n (discards p) v = record {
  tasks = λ j. ground (arith, v.tasks j, v.gate, p);
  lock = ground (arith, v.lock);
  bell = v.bell;
  gate = tt;
}
ExecutorStep-Inv n (locks_to_look p h q) v = record {
  tasks = λ j. ground (arith, v.tasks j);
  lock = ground (arith, v.lock);
  bell = v.bell;
  gate = tt;
}
ExecutorStep-Inv n (looks p) v = record {
  tasks = λ j. ground (arith, v.tasks j);
  lock = ground (arith, v.lock);
  bell = v.bell;
  gate = tt;
}
ExecutorStep-Inv n (leaves p) v = record {
  tasks = λ j. ground (arith, v.tasks j);
  lock = ground (arith, v.lock);
  bell = v.bell;
  gate = tt;
}

Reach-Inv : (n : ℕ) {w : World} → Reach n w → Inv n w
unfolding start
Reach-Inv n created = record {
  tasks = λ j.
      let z = sum_below-zero (carries j) n (λ t. away) (λ t. refl) in
      record {
        once = omega (arith, z);
        flagged = λ q. omega (arith, z);
        waiting = λ q f c. ground arith;
      };
  lock = omega (arith, sum_below-zero in_section n (λ t. away) (λ t. refl));
  bell = omega (arith, sum_below-zero will_ring n (λ t. away) (λ t. refl));
  gate = tt;
}
Reach-Inv n (wakes_on r st) = WakerStep-Inv n st (Reach-Inv n r)
Reach-Inv n (executes r st) = ExecutorStep-Inv n st (Reach-Inv n r)

-- Under every interleaving of wakers on `n` threads with the executor's thread: the critical sections of
-- the inbox never overlap, two threads are never both in one, and none is while the executor is.
pub inbox_excludes :
    (n : ℕ) {w : World} (s t : ℕ)
    → Reach n w
    → s < n
    → t < n
    → in_section (w.threads s) ≡ 1
    → in_section (w.threads t) ≡ 1
    → (s ≡ t) × (w.locked ≡ true) × (holds_inbox w.executor ≡ 0)
inbox_excludes n {w} s t r ls lt p q =
    let v = Reach-Inv n r in
    elim (ℕ_discrete s t) [
      | yes e ↦ (
        e,
        ground (arith, v.lock, p, sum_below-ge in_section n w.threads s ls),
        ground (arith, v.lock, p, sum_below-ge in_section n w.threads s ls),
      )
      | no ne ↦
          absurd
            (ground (arith, v.lock, p, q, sum_below-ge_two in_section n w.threads s t ls lt ne))
    ]

-- Under every interleaving, as long as the executor is not dropped: the `QUEUED` flag of a task that is
-- neither canceled nor completed is set exactly while the task is on its way to a poll, and it is on its
-- way once: in the inbox, in the batch, or with a thread that will push it. Every push but those whose
-- thread is about to call the notifier has called it.
pub queued_is_on_its_way :
    (n : ℕ) {w : World} (id : ℕ)
    → Reach n w
    → is_finished (w.headers id) ≡ false
    → w.closed ≡ false
    → (on_its_way n id w ≡ one_if (w.headers id).queued)
      × (w.pushed ≡ w.wakes + sum_below will_ring n w.threads)
queued_is_on_its_way n {w} id r f c =
    let v = Reach-Inv n r in (ground (arith, v.tasks id, f, c), v.bell)
