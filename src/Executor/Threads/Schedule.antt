-- ===== src/Executor/Threads/Schedule.antt =====
-- The steps of wakers in `Header::schedule` (src/executor.rs) keep the invariant of the threads.
use eneste_rs.Prelude.{
  ℕ, ◌+◌, ◌<◌, ◌≡◌, refl, true, false, [], ◌∷◌, ◌++◌, arith, sum_below, sum_below-update, update,
}
use eneste_rs.Executor.Invariant.{count-append}
use eneste_rs.Executor.Threads.{
  WakerAt, away, called, checked, marking, claimed, pushing, releasing, ringing, World, goes,
  set_flags, WakerStep, calls, sees_finished, sees_live, sees_closed, sees_open, finds_queued,
  claims, locks, pushes, releases, rings,
}
use eneste_rs.Executor.Threads.Counting.{carries, in_section, will_ring, Inv}

module _ (n : ℕ) {w : World} (v : Inv n w) (t : ℕ) (lt : t < n) where
  -- How a move of thread `t` changes the three counts of threads.
  abbrev Moved : (WakerAt → ℕ) → WakerAt → Type 0
  Moved weight pc =
      sum_below weight n (update w.threads t pc) + weight (w.threads t)
      ≡ sum_below weight n w.threads + weight pc

  moved : (weight : WakerAt → ℕ) (pc : WakerAt) → Moved weight pc
  moved weight pc = sum_below-update weight n w.threads t pc lt

  -- A move between two places that count alike.
  quiet-Inv :
      (pc : WakerAt)
      → ((j : ℕ) → carries j (w.threads t) ≡ carries j pc)
      → in_section (w.threads t) ≡ in_section pc
      → will_ring (w.threads t) ≡ will_ring pc
      → Inv n (goes t pc w)
  quiet-Inv pc c s r = record {
    tasks = λ j. ground (arith, v.tasks j, moved (carries j) pc, c j);
    lock = ground (arith, v.lock, moved in_section pc);
    bell = ground (arith, v.bell, moved will_ring pc);
    gate = v.gate;
  }

  claims-Inv :
      (id : ℕ)
      → w.threads t ≡ marking id
      → (w.headers id).queued ≡ false
      → Inv n (goes t (claimed id) (set_flags id (record (w.headers id) { queued = true }) w))
  claims-Inv id p q = record {
    tasks = λ j. ground (arith, v.tasks j, moved (carries j) (claimed id));
    lock = ground (arith, v.lock, moved in_section (claimed id));
    bell = ground (arith, v.bell, moved will_ring (claimed id));
    gate = v.gate;
  }

  locks-Inv :
      (id : ℕ)
      → w.threads t ≡ claimed id
      → w.locked ≡ false
      → Inv n (goes t (pushing id) (record w { locked = true }))
  locks-Inv id p q = record {
    tasks = λ j. ground (arith, v.tasks j, moved (carries j) (pushing id));
    lock = ground (arith, v.lock, moved in_section (pushing id));
    bell = ground (arith, v.bell, moved will_ring (pushing id));
    gate = v.gate;
  }

  pushes-Inv :
      (id : ℕ)
      → w.threads t ≡ pushing id
      → Inv n (goes t releasing (record w { inbox = w.inbox ++ id ∷ []; pushed = w.pushed + 1 }))
  pushes-Inv id p = record {
    tasks = λ j.
        ground (arith, v.tasks j, moved (carries j) releasing, count-append j w.inbox (id ∷ []));
    lock = ground (arith, v.lock, moved in_section releasing);
    bell = ground (arith, v.bell, moved will_ring releasing);
    gate = v.gate;
  }

  releases-Inv : w.threads t ≡ releasing → Inv n (goes t ringing (record w { locked = false }))
  releases-Inv p = record {
    tasks = λ j. ground (arith, v.tasks j, moved (carries j) ringing);
    lock = ground (arith, v.lock, moved in_section ringing);
    bell = ground (arith, v.bell, moved will_ring ringing);
    gate = v.gate;
  }

  rings-Inv : w.threads t ≡ ringing → Inv n (goes t away (record w { wakes = w.wakes + 1 }))
  rings-Inv p = record {
    tasks = λ j. ground (arith, v.tasks j, moved (carries j) away);
    lock = ground (arith, v.lock, moved in_section away);
    bell = ground (arith, v.bell, moved will_ring away);
    gate = v.gate;
  }

pub WakerStep-Inv : (n : ℕ) {w u : World} → WakerStep n w u → Inv n w → Inv n u
WakerStep-Inv n (calls t id lt p) v =
    quiet-Inv n v t lt (called id) (λ j. rw p refl) (rw p refl) (rw p refl)
WakerStep-Inv n (sees_finished t id lt p f) v =
    quiet-Inv n v t lt away (λ j. rw p refl) (rw p refl) (rw p refl)
WakerStep-Inv n (sees_live t id lt p f) v =
    quiet-Inv n v t lt (checked id) (λ j. rw p refl) (rw p refl) (rw p refl)
WakerStep-Inv n (sees_closed t id lt p c) v =
    quiet-Inv n v t lt away (λ j. rw p refl) (rw p refl) (rw p refl)
WakerStep-Inv n (sees_open t id lt p c) v =
    quiet-Inv n v t lt (marking id) (λ j. rw p refl) (rw p refl) (rw p refl)
WakerStep-Inv n (finds_queued t id lt p q) v =
    quiet-Inv n v t lt away (λ j. rw p refl) (rw p refl) (rw p refl)
WakerStep-Inv n (claims t id lt p q) v = claims-Inv n v t lt id p q
WakerStep-Inv n (locks t id lt p q) v = locks-Inv n v t lt id p q
WakerStep-Inv n (pushes t id lt p) v = pushes-Inv n v t lt id p
WakerStep-Inv n (releases t lt p) v = releases-Inv n v t lt p
WakerStep-Inv n (rings t lt p) v = rings-Inv n v t lt p
