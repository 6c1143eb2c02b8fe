-- ===== src/Executor/Invariant.antt =====
-- src/executor.rs: what holds of every task between two calls, and that a call keeps it.
use eneste_rs.Prelude.{
  ℕ, suc, ◌+◌, ◌≤◌, ◌<◌, ◌%◌, ◌^◌, ◌≡◌, refl, true, false, List, [], ◌∷◌, ◌++◌, Option, none, some,
  ◌==◌, if◌then◌else◌, arith, Bool-cases, inl, inr,
}
use eneste_rs.Event.{Poll, ready, pending}
use eneste_rs.Executor.{
  Slot, ExecutorState, is_finished, new_header, new, schedule, spawn, cancel_task, finish, close,
  set_slot, set_header,
}

-- How often an id stands in a list.
abbrev pub count : ℕ → List ℕ → ℕ
count id [] = 0
count id (x ∷ xs) = if x == id then suc (count id xs) else count id xs

pub count-append : (id : ℕ) (xs ys : List ℕ) → count id (xs ++ ys) ≡ count id xs + count id ys
count-append id [] ys = omega arith
count-append id (x ∷ xs) ys = ground (arith, count-append id xs ys)

module _ {W F : Type 0} where
  -- One task. `held` are the headers that `process_tasks` took out of the inbox and has not run yet,
  -- `running` is the task that is being polled.
  pub record Sound (held : List ℕ) (running : Option ℕ) (e : ExecutorState W F) (id : ℕ)
      : Type 0 where
    pub once : count id held + count id e.inbox ≤ 1
    pub flagged : (e.headers id).queued ≡ false → count id held + count id e.inbox ≡ 0
    pub waiting :
        (e.headers id).queued ≡ true
        → is_finished (e.headers id) ≡ false
        → e.closed ≡ false
        → count id held + count id e.inbox ≡ 1
    pub dead : is_finished (e.headers id) ≡ true → e.slots id ≡ none
    pub unborn : e.next_id ≤ id → (e.slots id ≡ none) × (e.headers id ≡ new_header)
    pub gone : e.closed ≡ true → e.slots id ≡ none
    pub owned :
        is_finished (e.headers id) ≡ false
        → e.closed ≡ false
        → id < e.next_id
        → (s : Slot F) × (e.slots id ≡ some s) × (s.future ≡ none → running ≡ some id)

  abbrev pub Inv : List ℕ → Option ℕ → ExecutorState W F → Type 0
  Inv held running e = (id : ℕ) → Sound held running e id

  -- What the executor does not touch has no part in the invariant.
  pub outside-Inv :
      (held : List ℕ) (r : Option ℕ) (e : ExecutorState W F) (w : W)
      → Inv held r e
      → Inv held r (record e { outside = w })
  outside-Inv held r e w v id =
      let s = v id in
      record {
        once = s.once;
        flagged = s.flagged;
        waiting = s.waiting;
        dead = s.dead;
        unborn = s.unborn;
        gone = s.gone;
        owned = s.owned;
      }

  pub schedule-Inv :
      (held : List ℕ) (r : Option ℕ) (i : ℕ) (e : ExecutorState W F)
      → i < e.next_id
      → Inv held r e
      → Inv held r (schedule i e)
  unfolding schedule
  schedule-Inv held r i e lt v id = record {
    once = ground (arith, v id, count-append id e.inbox (i ∷ []));
    flagged = λ q. ground (arith, v id, count-append id e.inbox (i ∷ []));
    waiting = λ q f c. ground (arith, v id, count-append id e.inbox (i ∷ []));
    dead = λ f. ground (arith, v id);
    unborn = λ l. ground (arith, v id);
    gone = λ c. ground (arith, v id);
    owned = λ f c l. ground (arith, v id);
  }

  -- A new task before it is scheduled.
  abbrev pub stored : F → ExecutorState W F → ExecutorState W F
  stored f e =
      let id = e.next_id in
      set_slot id (some (record { future = some f }))
        (set_header id new_header (record e { next_id = (id + 1) % 2 ^ 64 }))

  pub stored-Inv :
      (held : List ℕ) (r : Option ℕ) (f : F) (e : ExecutorState W F)
      → e.next_id + 1 < 2 ^ 64
      → e.closed ≡ false
      → Inv held r e
      → Inv held r (stored f e)
  stored-Inv held r f e lt living v id = record {
    once = (v id).once;
    flagged = λ q. ground (arith, v id);
    waiting = λ q u c. ground (arith, v id);
    dead = λ u. ground (arith, v id);
    unborn = λ l. ground (arith, v id);
    gone = λ c. ground (arith, v id);
    owned = λ u c l. elim (Bool-cases (e.next_id == id)) [
      | inl q ↦ rw q (record { future = some f }, refl, λ n. ground arith)
      | inr q ↦ rw q ((v id).owned (ground arith) c (ground arith))
    ];
  }

  pub spawn-Inv :
      (held : List ℕ) (r : Option ℕ) (f : F) (e : ExecutorState W F)
      → e.next_id + 1 < 2 ^ 64
      → e.closed ≡ false
      → Inv held r e
      → Inv held r (spawn f e).0
  unfolding spawn
  spawn-Inv held r f e lt living v =
      schedule-Inv held r e.next_id (stored f e) (omega arith) (stored-Inv held r f e lt living v)

  pub cancel_task-Inv :
      (held : List ℕ) (r : Option ℕ) (i : ℕ) (e : ExecutorState W F)
      → i < e.next_id
      → Inv held r e
      → Inv held r (cancel_task (some i) e).0
  unfolding cancel_task
  cancel_task-Inv held r i e lt v id = record {
    once = ground (arith, v id);
    flagged = λ q. ground (arith, v id);
    waiting = λ q f c. ground (arith, v id);
    dead = λ f. ground (arith, v id);
    unborn = λ l. ground (arith, v id);
    gone = λ c. ground (arith, v id);
    owned = λ f c l. ground (arith, v id);
  }

  pub close-Inv : (r : Option ℕ) (e : ExecutorState W F) → Inv [] r e → Inv [] r (close e)
  unfolding close
  close-Inv r e v id = record {
    once = omega arith;
    flagged = λ q. refl;
    waiting = λ q f c. ground arith;
    dead = λ f. refl;
    unborn = λ l. ground (arith, v id);
    gone = λ c. refl;
    owned = λ f c l. ground arith;
  }

  pub finish-Inv :
      (held : List ℕ) (i : ℕ) (f : F) (r : Poll (Unit {0})) (e : ExecutorState W F)
      → i < e.next_id
      → Inv held (some i) e
      → Inv held none (finish i f r e).0
  unfolding finish
  finish-Inv held i g (ready u) e lt v id = record {
    once = ground (arith, v id);
    flagged = λ q. ground (arith, v id);
    waiting = λ q f c. ground (arith, v id);
    dead = λ f. ground (arith, v id);
    unborn = λ l. ground (arith, v id);
    gone = λ c. ground (arith, v id);
    owned = λ f c l. ground (arith, v id);
  }
  finish-Inv held i g pending e lt v id = record {
    once = ground (arith, v id);
    flagged = λ q. ground (arith, v id);
    waiting = λ q f c. ground (arith, v id);
    dead = λ f. ground (arith, v id, v i);
    unborn = λ l. ground (arith, v id);
    gone = λ c. ground (arith, v id, v i);
    owned = λ f c l. elim (Bool-cases (i == id)) [
      | inl q ↦
          let own = (v id).owned (ground arith) (ground arith) (ground arith) in
          (record { future = some g }, ground (arith, own.1), λ n. ground arith)
      | inr q ↦ ground (arith, v id)
    ];
  }

  pub new-Inv : (w : W) → Inv [] none (new {F = F} w)
  unfolding new
  new-Inv w id = record {
    once = omega arith;
    flagged = λ q. refl;
    waiting = λ q f c. ground arith;
    dead = λ f. refl;
    unborn = λ l. (refl, refl);
    gone = λ c. refl;
    owned = λ f c l. ground arith;
  }
