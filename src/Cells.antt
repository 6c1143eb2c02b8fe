-- ===== src/Cells.antt =====
-- src/cell.rs and src/ref_cell.rs: the observable cells, and the guards of the second. The shared cell
-- and event are passed from call to call.
pub mod Changes
mod Tests
use eneste_rs.Prelude.{
  ℕ, ◌+◌, ◌-◌, Bool, true, false, ◌||◌, not, Option, none, some, ◌==◌, if◌then◌else◌, usize_max,
}
use eneste_rs.Event.{Inner, new_with, notify, usize}
use eneste_rs.Event.Stream.{StreamState, stream}

pub record ObservableCell (T : Type 0) : Type 0 where
  pub value : T
  pub event : Inner (Unit {0})

-- `ObservableRefCell`, with the borrow state of its `RefCell`
pub record ObservableRefCell (T : Type 0) : Type 0 where
  pub value : T
  pub readers : ℕ
  pub writing : Bool
  pub event : Inner (Unit {0})

-- `CellRefMut`, whose reference is to the cell that is passed along
pub record CellRefMut : Type 0 where
  pub mutated : Bool

module _ {T : Type 0} where
  -- `ObservableCell::new`, `get` and `clone`
  unfoldable pub new_cell : T → ObservableCell T
  new_cell v = record { value = v; event = new_with }

  unfoldable pub get_cell : ObservableCell T → T
  get_cell c = c.value

  unfoldable pub clone_cell : ObservableCell T → ObservableCell T
  clone_cell c = new_cell (get_cell c)

  -- `ObservableCell::set`, with the `PartialEq` of the contents
  unfoldable pub set_cell : (T → T → Bool) → ObservableCell T → T → ObservableCell T
  set_cell equal c v =
      if not (equal (get_cell c) v)
      then record c { value = v; event = notify c.event (usize usize_max) }
      else c

  -- `==` of two cells, with the `PartialEq` of the contents
  unfoldable pub eq_cell : (T → T → Bool) → ObservableCell T → ObservableCell T → Bool
  eq_cell equal c d = equal (get_cell c) (get_cell d)

  unfoldable pub subscribe_cell : ObservableCell T → ObservableCell T × StreamState
  subscribe_cell c = let (e, st) = stream c.event in (record c { event = e }, st)

  -- `ObservableRefCell::new` and `clone`; the clone of a cell that is being written is a panic.
  unfoldable pub new : T → ObservableRefCell T
  new v = record { value = v; readers = 0; writing = false; event = new_with }

  unfoldable pub clone : ObservableRefCell T → Option (ObservableRefCell T)
  clone c = if c.writing then none else some (new c.value)

  -- `try_borrow`, and `borrow` with `none` for the panic
  unfoldable pub borrow : ObservableRefCell T → Option (ObservableRefCell T)
  borrow c = if c.writing then none else some (record c { readers = c.readers + 1 })

  unfoldable pub drop_ref : ObservableRefCell T → ObservableRefCell T
  drop_ref c = record c { readers = c.readers - 1 }

  -- `try_borrow_mut`, and `borrow_mut` with `none` for the panic
  unfoldable pub borrow_mut : ObservableRefCell T → Option (ObservableRefCell T × CellRefMut)
  borrow_mut c =
      if c.writing || not (c.readers == 0)
      then none
      else some (record c { writing = true }, record { mutated = false })

  -- A write through `CellRefMut::deref_mut`
  unfoldable pub write : ObservableRefCell T → CellRefMut → T → ObservableRefCell T × CellRefMut
  write c r v = (record c { value = v }, record r { mutated = true })

  -- `CellRefMut::drop`, and then that of the `RefMut` in it
  unfoldable pub drop_ref_mut : ObservableRefCell T → CellRefMut → ObservableRefCell T
  drop_ref_mut c r =
      let told = if r.mutated then notify c.event (usize usize_max) else c.event in
      record c { event = told; writing = false }

  -- `==` of two cells: both are borrowed for it, and `none` is the panic if one is being written.
  unfoldable pub eq : (T → T → Bool) → ObservableRefCell T → ObservableRefCell T → Option Bool
  unfolding borrow
  eq equal c d = elim (borrow c) [
    | none ↦ none
    | some b ↦ elim (borrow d) [ none ↦ none | some k ↦ some (equal b.value k.value) ]
  ]

  -- `EventTarget::subscribe`
  unfoldable pub subscribe : ObservableRefCell T → ObservableRefCell T × StreamState
  subscribe c = let (e, st) = stream c.event in (record c { event = e }, st)
