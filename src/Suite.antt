-- ===== src/Suite.antt =====
-- The crate's own unit tests (the `tests` modules of src/*.rs), translated to scripts that run on the
-- models: a script is a list of calls, each with the outcome that the test asserts. Here: the comparison
-- of outcomes.
pub mod Events
pub mod Locks
pub mod Channels
pub mod Cells
mod WaitGroups
mod Sinks
mod Emitters
mod Executors
mod Handles
mod Atoms
use eneste_rs.Prelude.{
  ℕ, Bool, true, false, ◌&&◌, not, List, [], ◌∷◌, Option, none, some, if◌then◌else◌,
}
use eneste_rs.Event.{Poll, ready, pending}

-- A script passes from a state if every call has its asserted outcome; `act` makes one call.
unfoldable pub run {ℓ ℓ'} : {A : Type ℓ} → {S : Type ℓ'} → (A → S → S × Bool) → List A → S → Bool
run act [] x = true
run act (a ∷ rest) x = let (y, b) = act a x in let others = run act rest y in b && others

-- All scripts pass.
unfoldable pub all_pass {ℓ} : {A : Type ℓ} → (A → Bool) → List A → Bool
all_pass passes [] = true
all_pass passes (x ∷ xs) = passes x && all_pass passes xs

unfoldable pub bool_eq : Bool → Bool → Bool
bool_eq true b = b
bool_eq false b = not b

unfoldable pub list_eq : {A : Type 0} → (A → A → Bool) → List A → List A → Bool
list_eq equal [] [] = true
list_eq equal [] (y ∷ ys) = false
list_eq equal (x ∷ xs) [] = false
list_eq equal (x ∷ xs) (y ∷ ys) = equal x y && list_eq equal xs ys

unfoldable pub option_eq : {A : Type 0} → (A → A → Bool) → Option A → Option A → Bool
option_eq equal none none = true
option_eq equal none (some y) = false
option_eq equal (some x) none = false
option_eq equal (some x) (some y) = equal x y

unfoldable pub poll_eq : {A : Type 0} → (A → A → Bool) → Poll A → Poll A → Bool
poll_eq equal (ready x) (ready y) = equal x y
poll_eq equal (ready x) pending = false
poll_eq equal pending (ready y) = false
poll_eq equal pending pending = true

unfoldable pub unit_eq : Unit {0} → Unit {0} → Bool
unit_eq x y = true
