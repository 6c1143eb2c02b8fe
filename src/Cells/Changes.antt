-- ===== src/Cells/Changes.antt =====
-- The cells of src/cell.rs and src/ref_cell.rs tell their subscribers of a change, and only of a change.
use eneste_rs.Prelude.{
  ◌-◌, ◌≡◌, ◌≢◌, ◌⊎◌, refl, Bool, true, false, List, [], ◌∷◌, ◌++◌, some, arith, usize_max, inl,
  inr, Bool-cases,
}
use eneste_rs.Event.{Inner, notify, usize, with_value}
use eneste_rs.Event.Sweep.{waiting_entries, waiting-add-notified, mark_wakers}
use eneste_rs.Event.Invariant.{Inv}
use eneste_rs.Event.Notify.{notify_count_exact}
use eneste_rs.Emitter.{emit}
use eneste_rs.Emitter.Broadcast.{nobody_waits}
use eneste_rs.Cells.{
  ObservableCell, ObservableRefCell, CellRefMut, set_cell, get_cell, borrow_mut, write,
  drop_ref_mut,
}

-- Everybody who waited on `e` has been notified in `k`, and woken, in the order of subscription.
pub Told : Inner (Unit {0}) → Inner (Unit {0}) → Type 0
Told e k =
    (waiting_entries k.listeners ≡ 0)
    × (k.woken ≡ e.woken ++ mark_wakers (waiting_entries e.listeners) e.listeners)

notify-Told : (e : Inner (Unit {0})) → Inv e → Told e (notify e (usize usize_max))
unfolding Told emit usize with_value
notify-Told e v =
    let c = notify_count_exact e (usize usize_max) v (omega arith) in
    let n : (notify e (usize usize_max)).notified - e.notified ≡ waiting_entries e.listeners =
      omega (arith, c.0, v.few, v.small, v.counted, waiting-add-notified e.listeners) in
    (nobody_waits e tt v, rw n at c.2)

module _ {T : Type 0} where
  -- Setting a cell to a value that equals its own changes nothing. Any other value is stored, and
  -- everybody who waits for a change is notified and woken, in the order of subscription.
  pub set_cell_lem :
      (equal : T → T → Bool) (c : ObservableCell T) (v : T)
      → Inv c.event
      → ((equal c.value v ≡ true) × (set_cell equal c v ≡ c))
        ⊎ ((equal c.value v ≡ false)
            × (get_cell (set_cell equal c v) ≡ v)
            × Told c.event (set_cell equal c v).event)
  unfolding set_cell get_cell
  set_cell_lem equal c v i = elim (Bool-cases (equal c.value v)) [
    | inl q ↦ inl (q, rw (set_cell, q) refl)
    | inr q ↦ inr (q, ground (arith, q), rw (q, set_cell) (notify-Told c.event i))
  ]

  -- The writes through a `CellRefMut`, one after the other.
  pub write_all : ObservableRefCell T → CellRefMut → List T → ObservableRefCell T × CellRefMut
  unfolding write
  write_all c r [] = (c, r)
  write_all c r (v ∷ vs) = let (k, s) = write c r v in write_all k s vs

  abbrev pub last : T → List T → T
  last v [] = v
  last v (x ∷ xs) = last x xs

  write_all_lem :
      (c : ObservableRefCell T) (r : CellRefMut) (vs : List T)
      → (write_all c r vs).0 ≡ record c { value = last c.value vs }
  unfolding write_all
  write_all_lem c r [] = refl
  write_all_lem c r (v ∷ vs) = write_all_lem (record c { value = v }) (record { mutated = true }) vs

  write_all-mutated :
      (c : ObservableRefCell T) (vs : List T)
      → (write_all c (record { mutated = true }) vs).1 ≡ record { mutated = true }
  unfolding write_all
  write_all-mutated c [] = refl
  write_all-mutated c (v ∷ vs) = write_all-mutated (record c { value = v }) vs

  -- The life of a guard: when nobody has borrowed the cell, `borrow_mut` gives a guard, and after any
  -- writes through it and its drop the cell has the last value and is free again. Everybody who waits for
  -- a change is notified and woken if there was a write; the event is untouched if there was none.
  pub write_guard_lem :
      (c : ObservableRefCell T) (vs : List T)
      → Inv c.event
      → c.readers ≡ 0
      → c.writing ≡ false
      → (k : ObservableRefCell T) × (r : CellRefMut) × (borrow_mut c ≡ some (k, r))
        × ((drop_ref_mut (write_all k r vs).0 (write_all k r vs).1).value ≡ last c.value vs)
        × ((drop_ref_mut (write_all k r vs).0 (write_all k r vs).1).writing ≡ false)
        × (((vs ≡ []) × ((drop_ref_mut (write_all k r vs).0 (write_all k r vs).1).event ≡ c.event))
            ⊎ ((vs ≢ [])
                × Told c.event (drop_ref_mut (write_all k r vs).0 (write_all k r vs).1).event))
  unfolding borrow_mut drop_ref_mut write_all
  write_guard_lem c [] v n w = (
    record c { writing = true },
    record { mutated = false },
    ground (arith, n, w),
    refl,
    refl,
    inl (refl, refl),
  )
  write_guard_lem c (x ∷ xs) v n w =
      let k = record c { writing = true; value = x } in
      let a = write_all_lem k (record { mutated = true }) xs in
      let m = write_all-mutated k xs in
      (
        record c { writing = true },
        record { mutated = false },
        ground (arith, n, w),
        rw a refl,
        refl,
        inr (λ e. ground arith, rw (a, m) (notify-Told c.event v)),
      )
