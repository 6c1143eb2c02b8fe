-- ===== src/Executor/Wakers.antt =====
-- Tasks of an executor (src/executor.rs) that wait on an event (src/event.rs) with their own wakers: a
-- notification puts them into the executor's queue.
use eneste_rs.Prelude.{
  ℕ, ◌-◌, ◌≤◌, ◌<◌, ◌≡◌, refl, true, false, List, [], ◌∷◌, ◌++◌, none, some, arith, usize_mod,
}
use eneste_rs.Event.Map.{BTreeMap, get}
use eneste_rs.Event.{ListenerEntry, Inner, Notification, Waker, wakes, entry_is_notified, notify}
use eneste_rs.Event.Sweep.{mark, mark_wakers}
use eneste_rs.Event.Invariant.{Inv}
use eneste_rs.Event.Listener.{waiting_entry}
use eneste_rs.Event.Notify.{notify_count_exact}
use eneste_rs.Executor.{ExecutorState, FutureOps, is_finished, schedule}
use eneste_rs.Executor.Invariant.{count, count-append}
use eneste_rs.Executor.Calls.{FutureLaws}
use eneste_rs.Executor.System.{Reach, after, wakes_task, Reach-Inv}

module _ {T : Type 0} where
  -- The wakers that are stored in a map of listeners
  unfoldable pub wakers_of : BTreeMap (ListenerEntry T) → List Waker
  wakers_of [] = []
  wakers_of ((id, e) ∷ m) = wakes e.waker ++ wakers_of m

  mark_wakers-le :
      (a k : ℕ) (m : BTreeMap (ListenerEntry T)) → count a (mark_wakers k m) ≤ count a (wakers_of m)
  unfolding mark_wakers wakers_of
  mark_wakers-le a k [] = omega arith
  mark_wakers-le a k ((id, e) ∷ m) = ground (
    arith,
    mark_wakers-le a k m,
    mark_wakers-le a (k - 1) m,
    count-append a (wakes e.waker) (wakers_of m),
    count-append a (wakes e.waker) (mark_wakers (k - 1) m),
  )

  -- The waker of a listener that the sweep marks is among those that it takes out.
  mark-wakes :
      (k : ℕ) (tag : T) (m : BTreeMap (ListenerEntry T)) (i w : ℕ) (y : ListenerEntry T)
      → get i m ≡ some (waiting_entry (some w))
      → get i (mark k tag m) ≡ some y
      → entry_is_notified y ≡ true
      → 1 ≤ count w (mark_wakers k m)
  unfolding mark mark_wakers get
  mark-wakes k tag [] i w y g h n = absurd (cc)
  mark-wakes k tag ((id, e) ∷ m) i w y g h n = ground (
    arith,
    mark-wakes k tag m i w y,
    mark-wakes (k - 1) tag m i w y,
    count-append w (wakes e.waker) (mark_wakers (k - 1) m),
  )

module _ {W F : Type 0} where
  -- The calls of `wake`, in their order; the waker of a task schedules its header.
  unfoldable pub wake_all : List Waker → ExecutorState W F → ExecutorState W F
  wake_all [] x = x
  wake_all (w ∷ ws) x = wake_all ws (schedule w x)

  -- What a wake-up leaves of a live task: it lives, and if it was queued or woken it is queued.
  record Kept (a : ℕ) (x y : ExecutorState W F) : Type 0 where
    open_still : y.closed ≡ false
    live : is_finished (y.headers a) ≡ false
    same_ids : y.next_id ≡ x.next_id
    queued : (x.headers a).queued ≡ true → (y.headers a).queued ≡ true

  schedule-Kept :
      (a w : ℕ) (x : ExecutorState W F)
      → x.closed ≡ false
      → is_finished (x.headers a) ≡ false
      → Kept a x (schedule w x)
  unfolding schedule
  schedule-Kept a w x c l = record {
    open_still = ground (arith, c);
    live = ground (arith, c, l);
    same_ids = ground arith;
    queued = λ q. ground (arith, q);
  }

  schedule-queues :
      (a : ℕ) (x : ExecutorState W F)
      → x.closed ≡ false
      → is_finished (x.headers a) ≡ false
      → ((schedule a x).headers a).queued ≡ true
  unfolding schedule
  schedule-queues a x c l = ground (arith, c, l)

  wake_all-Kept :
      (a : ℕ) (ws : List Waker) (x : ExecutorState W F)
      → x.closed ≡ false
      → is_finished (x.headers a) ≡ false
      → Kept a x (wake_all ws x)
  unfolding wake_all
  wake_all-Kept a [] x c l = record { open_still = c; live = l; same_ids = refl; queued = λ q. q }
  wake_all-Kept a (w ∷ ws) x c l =
      let k = schedule-Kept a w x c l in
      let r = wake_all-Kept a ws (schedule w x) k.open_still k.live in
      record {
        open_still = r.open_still;
        live = r.live;
        same_ids = ground (arith, r.same_ids, k.same_ids);
        queued = λ q. r.queued (k.queued q);
      }

  wake_all-queues :
      (a : ℕ) (ws : List Waker) (x : ExecutorState W F)
      → x.closed ≡ false
      → is_finished (x.headers a) ≡ false
      → 1 ≤ count a ws
      → ((wake_all ws x).headers a).queued ≡ true
  unfolding wake_all
  wake_all-queues a [] x c l h = absurd (omega arith)
  wake_all-queues a (w ∷ ws) x c l h =
      let k = schedule-Kept a w x c l in
      let r = wake_all-Kept a ws (schedule w x) k.open_still k.live in
      let s = schedule-queues a x c l in
      let ih = wake_all-queues a ws (schedule w x) k.open_still k.live in
      ground (arith, h, r.queued, s, ih)

module _ {W F : Type 0} (ops : FutureOps W F) (laws : FutureLaws ops) where
  wake_all-Reach :
      (ws : List Waker) (x : ExecutorState W F)
      → Reach ops laws x
      → ((a : ℕ) → 1 ≤ count a ws → a < x.next_id)
      → Reach ops laws (wake_all ws x)
  unfolding wake_all schedule
  wake_all-Reach [] x r h = r
  wake_all-Reach (w ∷ ws) x r h =
      wake_all-Reach ws (schedule w x) (after r (wakes_task w (h w (ground arith))))
        (λ a p. ground (arith, p, h a))

  -- Tasks wait on a well-formed event with their own wakers, which the executor spawned. If a
  -- notification reaches listener `i`, of a task `w` that is neither canceled nor completed, then the
  -- wakers that it calls put `w` into the queue of the executor, where it stands exactly once, whatever
  -- the state of the other tasks.
  pub notified_is_queued :
      {T : Type 0} (e : Inner T) (n : Notification T) (i w : ℕ) {x : ExecutorState W F}
      → Reach ops laws x
      → x.closed ≡ false
      → is_finished (x.headers w) ≡ false
      → Inv e
      → n.count < usize_mod
      → ((a : ℕ) → 1 ≤ count a (wakers_of e.listeners) → a < x.next_id)
      → get i e.listeners ≡ some (waiting_entry (some w))
      → get i (notify e n).listeners ≡ some (record { waker = none; value = some n.tag })
      → (ws : List Waker) × ((notify e n).woken ≡ e.woken ++ ws)
        × (count w (wake_all ws x).inbox ≡ 1)
  notified_is_queued e n i w {x} r c l v h own g q =
      let k = (notify e n).notified - e.notified in
      let ws = mark_wakers k e.listeners in
      let exact = notify_count_exact e n v h in
      let marked = mark-wakes k n.tag e.listeners i w _ g (rw exact.1 at q) refl in
      let kept = wake_all-Kept w ws x c l in
      let reached =
        wake_all-Reach ws x r (λ a p. own a (omega (arith, p, mark_wakers-le a k e.listeners))) in
      let waiting =
        (Reach-Inv ops laws reached w).waiting (wake_all-queues w ws x c l marked) kept.live
          kept.open_still in
      (ws, exact.2, omega (arith, waiting))
