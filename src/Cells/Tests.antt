-- ===== src/Cells/Tests.antt =====
-- Two subscribers of a cell of src/cell.rs and of one of src/ref_cell.rs, and the theorems at them.
use eneste_rs.Prelude.{ℕ, ◌≡◌, ◌≢◌, ◌⊎◌, refl, true, false, List, [], ◌∷◌, none, some, arith, ◌==◌}
use eneste_rs.Event.{Inner, notify, notify_inner, notify_count, notify_loop, usize}
use eneste_rs.Event.Invariant.{Inv}
use eneste_rs.Cells.{
  ObservableCell, ObservableRefCell, CellRefMut, set_cell, get_cell, clone_cell, new_cell, drop_ref,
  borrow_mut, drop_ref_mut, eq, eq_cell, borrow,
}
use eneste_rs.Cells.Changes.{Told, write_all, last, write_guard_lem}

-- One subscriber waits, one has not taken an earlier notification.
abbrev two : Inner (Unit {0})
two = record {
  listeners =
      (0, record { waker = none; value = some tt })
      ∷ (1, record { waker = some 7; value = none })
      ∷ [];
  next_id = 2;
  notified = 1;
  closed = false;
  woken = [];
}

two-Inv : Inv two
two-Inv = record { ordered = omega arith; counted = refl; few = omega arith; small = omega arith }

abbrev cell : ObservableCell ℕ
cell = record { value = 3; event = two }

-- Another value wakes whoever waits; the same value wakes nobody.
set_wakes : (set_cell (λ x y. x == y) cell 4).event.woken ≡ 7 ∷ []
unfolding set_cell get_cell notify notify_inner notify_count notify_loop usize
set_wakes = refl

set_same : set_cell (λ x y. x == y) cell 3 ≡ cell
unfolding set_cell get_cell
set_same = refl

cloned_is_alone : clone_cell cell ≡ new_cell 3
unfolding clone_cell get_cell
cloned_is_alone = refl

abbrev ref_cell : ObservableRefCell ℕ
ref_cell = record { value = 3; readers = 0; writing = false; event = two }

abbrev writes : List ℕ
writes = 5 ∷ 6 ∷ []

write_guard_example :
    (k : ObservableRefCell ℕ) × (r : CellRefMut) × (borrow_mut ref_cell ≡ some (k, r))
    × ((drop_ref_mut (write_all k r writes).0 (write_all k r writes).1).value ≡ last 3 writes)
    × ((drop_ref_mut (write_all k r writes).0 (write_all k r writes).1).writing ≡ false)
    × (((writes ≡ [])
          × ((drop_ref_mut (write_all k r writes).0 (write_all k r writes).1).event ≡ two))
        ⊎ ((writes ≢ [])
            × Told two (drop_ref_mut (write_all k r writes).0 (write_all k r writes).1).event))
write_guard_example = write_guard_lem ref_cell writes two-Inv refl refl

-- A reader keeps writers out until it is dropped.
reader_excludes : borrow_mut (record ref_cell { readers = 1 }) ≡ none
unfolding borrow_mut
reader_excludes = refl

reader_leaves : drop_ref (record ref_cell { readers = 1 }) ≡ ref_cell
unfolding drop_ref
reader_leaves = refl

-- Comparing a cell with one that is being written panics.
compared : eq (λ x y. x == y) ref_cell (record ref_cell { readers = 1 }) ≡ some true
unfolding eq borrow
compared = refl

compared_while_written : eq (λ x y. x == y) ref_cell (record ref_cell { writing = true }) ≡ none
unfolding eq borrow
compared_while_written = refl

cells_compared : eq_cell (λ x y. x == y) cell (new_cell 4) ≡ false
unfolding eq_cell get_cell new_cell
cells_compared = refl
