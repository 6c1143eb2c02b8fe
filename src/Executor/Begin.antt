-- ===== src/Executor/Begin.antt =====
-- src/executor.rs: the start of `run`, which takes the future out of its slot.
use eneste_rs.Prelude.{
  ℕ, zero, suc, ◌≤◌, ◌<◌, ◌≡◌, refl, sym, ap, true, false, List, [], ◌∷◌, ◌++◌, append-nil, none,
  some, ◌==◌, arith, length, Bool-cases, inl, inr, eq_of_some, ◌∙◌,
}
use native.Mathlib.Decide.{dec_lt}
use eneste_rs.Executor.{Slot, ExecutorState, is_finished, set_slot, set_header, drain}
use eneste_rs.Executor.Invariant.{Sound, Inv}
use eneste_rs.Executor.Calls.{Grows}

pub drain-split : (n : ℕ) (xs : List ℕ) → n ≤ length xs → (drain n xs).0 ++ (drain n xs).1 ≡ xs
drain-split zero xs h = refl
drain-split (suc n) [] h = refl
drain-split (suc n) (x ∷ xs) h = ap (λ ys. x ∷ ys) (drain-split n xs (omega arith))

pub length-drain : (n : ℕ) (xs : List ℕ) → n ≤ length xs → length (drain n xs).0 ≡ n
length-drain zero xs h = refl
length-drain (suc n) [] h = omega arith
length-drain (suc n) (x ∷ xs) h = ground (arith, length-drain n xs)

module _ {W F : Type 0} where
  -- The start of a run: the flag is cleared, and the future is taken out of its slot.
  abbrev pub dequeued : ℕ → ExecutorState W F → ExecutorState W F
  dequeued id e = set_header id (record (e.headers id) { queued = false }) e

  abbrev pub begun : ℕ → ExecutorState W F → ExecutorState W F
  begun id e = set_slot id (some (record { future = none })) (dequeued id e)

  pub finished-Inv :
      (held : List ℕ) (i : ℕ) (e : ExecutorState W F)
      → is_finished (e.headers i) ≡ true
      → Inv (i ∷ held) none e
      → Inv held none e
  finished-Inv held i e d v id = record {
    once = ground (arith, v id);
    flagged = λ q. ground (arith, v id);
    waiting = λ q f c. ground (arith, v id);
    dead = (v id).dead;
    unborn = (v id).unborn;
    gone = (v id).gone;
    owned = (v id).owned;
  }

  pub dequeued-Inv :
      (held : List ℕ) (i : ℕ) (e : ExecutorState W F)
      → Inv (i ∷ held) none e
      → e.slots i ≡ none
      → Inv held none (dequeued i e)
  dequeued-Inv held i e v n id = record {
    once = ground (arith, v id);
    flagged = λ q. ground (arith, v id);
    waiting = λ q f c. ground (arith, v id);
    dead = λ f. ground (arith, v id);
    unborn = λ l. ground (arith, v id);
    gone = λ c. ground (arith, v id);
    owned = λ f c l. ground (arith, v id);
  }

  pub begun-Inv :
      (held : List ℕ) (i : ℕ) (e : ExecutorState W F) (s : Slot F)
      → Inv (i ∷ held) none e
      → is_finished (e.headers i) ≡ false
      → e.slots i ≡ some s
      → Inv held (some i) (begun i e)
  begun-Inv held i e s v u n id = record {
    once = ground (arith, v id);
    flagged = λ q. ground (arith, v id);
    waiting = λ q f c. ground (arith, v id);
    dead = λ f. ground (arith, v id);
    unborn = λ l. ground (arith, v id);
    gone = λ c. ground (arith, v id);
    owned = λ f c l. elim (Bool-cases (i == id)) [
      | inl q ↦ rw q (record { future = none }, refl, λ m. ground arith)
      | inr q ↦ ground (arith, v id)
    ];
  }

  pub dequeued-Grows : (i : ℕ) (e : ExecutorState W F) → Grows e (dequeued i e)
  dequeued-Grows i e = record {
    ids = omega arith;
    lives = refl;
    behind = ([], sym (append-nil e.inbox));
  }

  pub begun-Grows : (i : ℕ) (e : ExecutorState W F) → Grows e (begun i e)
  begun-Grows i e = record {
    ids = omega arith;
    lives = refl;
    behind = ([], sym (append-nil e.inbox));
  }

  pub held_born :
      (held : List ℕ) (i : ℕ) (e : ExecutorState W F) → Sound (i ∷ held) none e i → i < e.next_id
  held_born held i e v = elim (dec_lt i e.next_id) [
    | yes p ↦ p
    | no p ↦ absurd (ground (arith, v.flagged, v.unborn))
  ]

  -- Between two runs no future is away from its slot.
  pub slot_has_future :
      (i : ℕ) {held : List ℕ} (e : ExecutorState W F)
      → Sound (i ∷ held) none e i
      → is_finished (e.headers i) ≡ false
      → (s : Slot F) → e.slots i ≡ some s
      → s.future ≡ none
      → ⊥
  slot_has_future i {held} e v u s n m = elim (Bool-cases e.closed) [
    | inl c ↦ ground (arith, v.gone c)
    | inr c ↦
        let own = v.owned u c (held_born held i e v) in
        let same = eq_of_some (sym own.1 ∙ n) in ground (arith, own, same)
  ]
