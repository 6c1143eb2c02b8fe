-- ===== src/Executor/Blocking.antt =====
-- src/executor.rs: `block_on` against a plain loop that polls one future.
mod Tests
use eneste_rs.Prelude.{
  ℕ, zero, suc, ◌+◌, ◌%◌, ◌<◌, ◌^◌, ◌≡◌, ◌∙◌, refl, ap, sym, subst, Bool, true, false, List, [],
  ◌∷◌, Option, none, some, arith, min, length, update, usize_max, if◌then◌else◌,
}
use eneste_rs.Event.{Poll, ready, pending}
use eneste_rs.Executor.{
  ExecutorState, Slot, FutureOps, is_finished, new_header, schedule, spawn, finish, drop_left,
  drop_slot, has_tasks, run, run_all, process_tasks,
}
use eneste_rs.Executor.Begin.{begun}
use eneste_rs.Executor.Driving.{drive, block_on}

-- What a poll of the future comes to: its result, or another state, in which it has woken its own task or
-- has not.
pub data Answer (G : Type 0) : Type 0 where
  finished : Answer G
  waits : Bool → G → Answer G

module _ {G W : Type 0} (step : G → W → W × Answer G) (release : G → W → W) where
  -- The plain loop: the future is polled as long as it wakes itself, and dropped when it has finished. It
  -- tells whether the future finished; `none` means that `n` polls are not enough.
  unfoldable pub poll_until : ℕ → G → W → Option (W × Bool)
  poll_until zero g w = none
  poll_until (suc n) g w =
      let (v, answer) = step g w in
      elim answer [
        | finished ↦ some (release g v, true)
        | waits woken g' ↦ let rest = poll_until n g' v in if woken then rest else some (v, false)
      ]

module _ {G W F : Type 0} (future : G → F) where
  -- A poll of such a future as calls of the executor: it changes what is outside, and wakes its task or
  -- does not.
  unfoldable pub answered :
      G → ℕ → ExecutorState W F → W × Answer G → ExecutorState W F × F × Poll (Unit {0})
  answered g id x (v, finished) = (record x { outside = v }, future g, ready tt)
  answered g id x (v, waits true g') = (schedule id (record x { outside = v }), future g', pending)
  answered g id x (v, waits false g') = (record x { outside = v }, future g', pending)

module _ {G W F : Type 0} (ops : FutureOps W F) (step : G → W → W × Answer G) (release : G → W → W)
    (future : G → F) where
  module _
      (polls : (g : G) (id : ℕ) (x : ExecutorState W F)
        → ops.poll (future g) id x ≡ answered future g id x (step g x.outside))
      (drops : (g : G) (x : ExecutorState W F)
        → ops.drop_future (future g) x ≡ record x { outside = release g x.outside }) where
    -- The task `id` is live and queued, alone, with the future `g`.
    record Turn (id : ℕ) (g : G) (x : ExecutorState W F) : Type 0 where
      on : x.closed ≡ false
      live : is_finished (x.headers id) ≡ false
      slot : x.slots id ≡ some (record { future = some (future g) })
      alone : x.inbox ≡ id ∷ []
      flag : (x.headers id).queued ≡ true

    abbrev settled : ℕ → ExecutorState W F × F × Poll (Unit {0}) → ExecutorState W F
    settled id (k, f, r) =
        let done = finish id f r k in drop_left ops done.2 (drop_slot ops done.1 done.0)

    round :
        (id : ℕ) (g : G) (x : ExecutorState W F)
        → Turn id g x
        → process_tasks ops usize_max x
          ≡ settled id
              (answered future g id (begun id (record x { inbox = [] })) (step g x.outside))
    unfolding process_tasks run_all run finish drop_left drop_slot
    round id g x t =
        let y = record x { inbox = [] } in
        let one : process_tasks ops usize_max x ≡ run ops id y = ground (arith, t.alone) in
        let polled : run ops id y ≡ settled id (ops.poll (future g) id (begun id y)) =
          ground (arith, t.live, t.slot) in
        one ∙ polled ∙ ap (settled id) (polls g id (begun id y))

    abbrev next : ℕ → G → ExecutorState W F → W × Answer G → ExecutorState W F
    next id g x a = settled id (answered future g id (begun id (record x { inbox = [] })) a)

    -- How `drive` comes out of a state: with the queue empty, and the task completed or not.
    abbrev Driven : ℕ → ℕ → ExecutorState W F → W → Bool → Type 0
    Driven fuel id x w b =
        (k : ExecutorState W F) × (drive ops fuel x ≡ some k)
        × (k.outside ≡ w)
        × (k.inbox ≡ [])
        × ((k.headers id).completed ≡ b)

    idle-Driven :
        (fuel id : ℕ) (x : ExecutorState W F) (w : W) (b : Bool)
        → x.inbox ≡ []
        → x.outside ≡ w
        → (x.headers id).completed ≡ b
        → Driven (suc fuel) id x w b
    unfolding drive has_tasks
    idle-Driven fuel id x w b q o c = (x, ground (arith, q), o, q, c)

    finished-Driven :
        (fuel id : ℕ) (g : G) (x : ExecutorState W F) (v : W)
        → Turn id g x
        → Driven (suc fuel) id (next id g x (v, finished)) (release g v) true
    unfolding answered finish drop_left drop_slot
    finished-Driven fuel id g x v t =
        let k = record (begun id (record x { inbox = [] })) { outside = v } in
        let done = (finish id (future g) (ready tt) k).0 in
        let same : next id g x (v, finished) ≡ record done { outside = release g v } =
          (ground arith) ∙ drops g done in
        subst (λ y. Driven (suc fuel) id y (release g v) true) (sym same)
          (idle-Driven fuel id (record done { outside = release g v }) (release g v) true refl refl
            (ground arith))

    asleep-Driven :
        (fuel id : ℕ) (g g' : G) (x : ExecutorState W F) (v : W)
        → Turn id g x
        → Driven (suc fuel) id (next id g x (v, waits false g')) v false
    unfolding answered finish drop_left drop_slot
    asleep-Driven fuel id g g' x v t =
        idle-Driven fuel id (next id g x (v, waits false g')) v false (ground (arith, t.live))
          (ground (arith, t.live)) (ground (arith, t.live))

    woken-Turn :
        (id : ℕ) (g g' : G) (x : ExecutorState W F) (v : W)
        → Turn id g x
        → Turn id g' (next id g x (v, waits true g'))
          × ((next id g x (v, waits true g')).outside ≡ v)
    unfolding answered finish drop_left drop_slot schedule
    woken-Turn id g g' x v t = (
      record {
        on = ground (arith, t.on, t.live);
        live = ground (arith, t.on, t.live);
        slot = ground (arith, t.on, t.live);
        alone = ground (arith, t.on, t.live);
        flag = ground (arith, t.on, t.live);
      },
      ground (arith, t.on, t.live),
    )

    more-Driven :
        (fuel id : ℕ) (g : G) (x : ExecutorState W F) (w : W) (b : Bool)
        → Turn id g x
        → Driven fuel id (next id g x (step g x.outside)) w b
        → Driven (suc fuel) id x w b
    unfolding drive has_tasks
    more-Driven fuel id g x w b t d =
        let (k, p, o, i, c) = subst (λ y. Driven fuel id y w b) (sym (round id g x t)) d in
        (k, ground (arith, t.alone, p), o, i, c)

    -- One round, for each answer of the poll; `later` is the rest of the loop.
    answer-Driven :
        (n id : ℕ) (g : G) (x : ExecutorState W F) (w : W) (b : Bool) (a : W × Answer G)
        → ((g' : G) (y : ExecutorState W F)
            → Turn id g' y
            → poll_until step release n g' y.outside ≡ some (w, b)
            → Driven (suc n) id y w b)
        → Turn id g x
        → step g x.outside ≡ a
        → poll_until step release (suc n) g x.outside ≡ some (w, b)
        → Driven (suc n) id (next id g x a) w b
    unfolding poll_until
    answer-Driven n id g x w b (v, finished) later t q p =
        let e : (release g v ≡ w) × (true ≡ b) = ground (arith, p, q) in
        let d = finished-Driven n id g x v t in (d.0, d.1, d.2 ∙ e.0, d.3, d.4 ∙ e.1)
    answer-Driven n id g x w b (v, waits false g') later t q p =
        let e : (v ≡ w) × (false ≡ b) = ground (arith, p, q) in
        let d = asleep-Driven n id g g' x v t in (d.0, d.1, d.2 ∙ e.0, d.3, d.4 ∙ e.1)
    answer-Driven n id g x w b (v, waits true g') later t q p =
        let s = woken-Turn id g g' x v t in
        later g' (next id g x (v, waits true g')) s.0 (ground (arith, p, q, s.1))

    Turn-Driven :
        (n id : ℕ) (g : G) (x : ExecutorState W F) (w : W) (b : Bool)
        → Turn id g x
        → poll_until step release n g x.outside ≡ some (w, b)
        → Driven (suc n) id x w b
    unfolding poll_until
    Turn-Driven zero id g x w b t p = absurd (ground (arith, p))
    Turn-Driven (suc n) id g x w b t p = more-Driven (suc n) id g x w b t (
        answer-Driven n id g x w b (step g x.outside)
          (λ g' y t' p'. Turn-Driven n id g' y w b t' p') t refl p)

    -- `block_on` on an open executor on which nothing is queued, of a future that changes what is outside
    -- and wakes nobody but, at some polls, itself. If the plain loop ends within `n` polls, then `n` + 1
    -- rounds are enough for `block_on`. They leave outside what the loop leaves, and an empty queue, and
    -- `block_on` panics (the answer `false`) exactly if the loop stops at a poll that was pending without
    -- a wake-up: a wake-up of the future by itself, during its poll, is never lost.
    pub block_on-eq-poll_until :
        (n : ℕ) (g : G) (x : ExecutorState W F) (w : W) (b : Bool)
        → x.closed ≡ false
        → x.inbox ≡ []
        → poll_until step release n g x.outside ≡ some (w, b)
        → (k : ExecutorState W F) × (block_on ops (suc n) (future g) x ≡ some (k, b))
          × (k.outside ≡ w)
          × (k.inbox ≡ [])
    unfolding block_on spawn schedule
    block_on-eq-poll_until n g x w b on alone p =
        let y = (spawn (future g) x).0 in
        let t : Turn x.next_id g y = record {
          on = ground (arith, on);
          live = ground (arith, on);
          slot = ground (arith, on);
          alone = ground (arith, on, alone);
          flag = ground (arith, on);
        } in
        let (k, q, o, i, c) = Turn-Driven n x.next_id g y w b t (ground (arith, on, p)) in
        (k, ground (arith, q, c), o, i)
