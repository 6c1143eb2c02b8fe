-- ===== src/Lock/Tasks.antt =====
-- The tasks that use a lock of src/lock, and which of them sleeps on which listener of its event.
use eneste_rs.Prelude.{
  ℕ, ◌<◌, ◌≡◌, sym, Bool, true, false, Option, none, some, arith, ◌==◌, if◌then◌else◌, Bool-cases,
  inl, inr, update, ◌∙◌,
}
use eneste_rs.Lock.{LockState, waiting, idle}

-- A task is outside, has a lock future of a mode, or holds a guard of a mode.
pub data Task (Mode : Type 0) : Type 0 where
  outside : Task Mode
  trying : Mode → LockState → Task Mode
  holding : Mode → Task Mode

module _ {Mode : Type 0} where
  -- The listener that a task sleeps on.
  abbrev pub listener_of : Task Mode → Option ℕ
  listener_of outside = none
  listener_of (trying m (waiting id)) = some id
  listener_of (trying m idle) = none
  listener_of (holding m) = none

  -- The listeners that `reg` knows are those of the first `n` tasks, each of one task.
  pub record Attached (n : ℕ) (reg : ℕ → Bool) (tasks : ℕ → Task Mode) : Type 0 where
    pub known : (i id : ℕ) → listener_of (tasks i) ≡ some id → reg id ≡ true
    pub unique :
        (i j id : ℕ) → listener_of (tasks i) ≡ some id → listener_of (tasks j) ≡ some id → i ≡ j
    pub owned : (id : ℕ) → reg id ≡ true → (i : ℕ) × (i < n) × (listener_of (tasks i) ≡ some id)

  module _ {n : ℕ} {reg reg' : ℕ → Bool} {tasks : ℕ → Task Mode} (a : Attached n reg tasks) where
    -- A task changes, and no listener comes or goes.
    pub Attached-same :
        (i : ℕ) (t : Task Mode)
        → listener_of t ≡ listener_of (tasks i)
        → ((id : ℕ) → reg' id ≡ reg id)
        → Attached n reg' (update tasks i t)
    Attached-same i t e same = record {
      known = λ j id h. same id ∙ a.known j id (at j ∙ h);
      unique = λ j k id h g. a.unique j k id (at j ∙ h) (at k ∙ g);
      owned = λ id h. let (j, lt, g) = a.owned id (sym (same id) ∙ h) in (j, lt, sym (at j) ∙ g);
    }
      where
        at : (j : ℕ) → listener_of (tasks j) ≡ listener_of (update tasks i t j)
        at j = ground arith

    -- A task gives its listener up.
    pub Attached-leave :
        (i gone : ℕ) (t : Task Mode)
        → listener_of (tasks i) ≡ some gone
        → listener_of t ≡ none
        → ((id : ℕ) → reg' id ≡ (if gone == id then false else reg id))
        → Attached n reg' (update tasks i t)
    Attached-leave i gone t e e' less = record {
      known = λ j id h. ground (arith, less id, a.known j id, a.unique i j id);
      unique = λ j k id h g. ground (arith, a.unique j k id);
      owned = λ id h.
          let (j, lt, g) = a.owned id (ground (arith, less id)) in (j, lt, ground (arith, less id));
    }

    -- A task without a listener registers one.
    pub Attached-enter :
        (i new : ℕ) (t : Task Mode)
        → i < n
        → listener_of (tasks i) ≡ none
        → listener_of t ≡ some new
        → reg new ≡ false
        → ((id : ℕ) → reg' id ≡ (if new == id then true else reg id))
        → Attached n reg' (update tasks i t)
    Attached-enter i new t lt e e' fresh more = record {
      known = λ j id h. ground (arith, more id, a.known j id);
      unique = λ j k id h g. ground (arith, a.unique j k id, a.known j id, a.known k id);
      owned = λ id h. elim (Bool-cases (new == id)) [
        | inl q ↦ (i, lt, ground arith)
        | inr q ↦ let (j, lt', g) = a.owned id (ground (arith, more id)) in (j, lt', ground arith)
      ];
    }
