-- ===== src/Suite/Atoms.antt =====
-- The unit tests of src/atom.rs: atoms and their weak handles, over the allocated strings.
use eneste_rs.Prelude.{ℕ, Bool, true, false, List, [], ◌∷◌, none, some, ◌≡◌, refl, update}
use eneste_rs.Upgrade.{drop, upgrade_weak}
use eneste_rs.Atom.{
  Strings, Atom, WeakAtom, new, as_str, str_eq, eq, eq_str, drop_atom, downgrade_atom, upgrade_atom,
}
use eneste_rs.Suite.{run, bool_eq, all_pass}

-- Atoms and weak handles are named by numbers; a string is the list of its bytes.
data Act : Type 0 where
  creates : ℕ → List ℕ → Act
  reads : ℕ → List ℕ → Act
  equal : ℕ → ℕ → Bool → Act
  equal_str : ℕ → List ℕ → Bool → Act
  downgrades : ℕ → ℕ → Act
  upgrades : ℕ → ℕ → Act
  dead : ℕ → Act
  drops : ℕ → Act

record Scene : Type 0 where
  strings : Strings
  atoms : ℕ → Atom
  weak_atoms : ℕ → WeakAtom

-- One call: the state after it, and whether its outcome is the asserted one.
unfoldable act : Act → Scene → Scene × Bool
act (creates k text) x =
    let (s, a) = new x.strings text in (record x { strings = s; atoms = update x.atoms k a }, true)
act (reads k text) x = (x, str_eq (as_str x.strings (x.atoms k)) text)
act (equal j k b) x = (x, bool_eq (eq x.strings (x.atoms j) (x.atoms k)) b)
act (equal_str k text b) x = (x, bool_eq (eq_str x.strings (x.atoms k) text) b)
act (downgrades k w) x =
    (record x { weak_atoms = update x.weak_atoms w (downgrade_atom (x.atoms k)) }, true)
act (upgrades w k) x =
    let (s, r) = upgrade_atom x.strings (x.weak_atoms w) in
    elim r [
      | none ↦ (record x { strings = s }, false)
      | some a ↦ (record x { strings = s; atoms = update x.atoms k a }, true)
    ]
act (dead w) x =
    let (s, r) = upgrade_atom x.strings (x.weak_atoms w) in
    elim r [ none ↦ (record x { strings = s }, true) | some a ↦ (record x { strings = s }, false) ]
act (drops k) x = (record x { strings = drop_atom x.strings (x.atoms k) }, true)

unfoldable passes : List Act → Bool
passes script = run act script (record {
  strings = record { counts = λ a. 0; bytes = λ a. []; next = 0 };
  atoms = λ k. record { value = 0 };
  weak_atoms = λ w. record { value = 0 };
})

abbrev Script : Type 0
Script = List Act

abbrev new_stores_string_contents : Script
new_stores_string_contents =
    creates 1 (104 ∷ 101 ∷ 108 ∷ 108 ∷ 111 ∷ []) ∷ reads 1 (104 ∷ 101 ∷ 108 ∷ 108 ∷ 111 ∷ []) ∷ []

-- `as_ref` and `borrow` return what `as_str` does.
abbrev as_ref_and_borrow_return_the_same_str : Script
as_ref_and_borrow_return_the_same_str =
    creates 1 (118 ∷ 97 ∷ 108 ∷ 117 ∷ 101 ∷ []) ∷ reads 1 (118 ∷ 97 ∷ 108 ∷ 117 ∷ 101 ∷ []) ∷ []

abbrev atoms_compare_by_content : Script
atoms_compare_by_content =
    creates 1 (97 ∷ [])
    ∷ creates 2 (97 ∷ [])
    ∷ equal 1 2 true
    ∷ creates 3 (97 ∷ [])
    ∷ creates 4 (98 ∷ [])
    ∷ equal 3 4 false
    ∷ []

abbrev atom_compares_with_str_in_both_directions : Script
atom_compares_with_str_in_both_directions =
    creates 1 (97 ∷ 98 ∷ 99 ∷ [])
    ∷ equal_str 1 (97 ∷ 98 ∷ 99 ∷ []) true
    ∷ equal_str 1 (97 ∷ 98 ∷ 100 ∷ []) false
    ∷ []

abbrev from_str_and_from_string_build_atoms : Script
from_str_and_from_string_build_atoms =
    creates 1 (120 ∷ []) ∷ creates 2 (120 ∷ []) ∷ equal 1 2 true ∷ reads 2 (120 ∷ []) ∷ []

-- The contents of the other atoms are "a".
abbrev weak_atom_upgrades_while_atom_is_alive : Script
weak_atom_upgrades_while_atom_is_alive =
    creates 1 (97 ∷ []) ∷ downgrades 1 1 ∷ upgrades 1 2 ∷ equal 2 1 true ∷ []

abbrev weak_atom_fails_to_upgrade_after_atom_is_dropped : Script
weak_atom_fails_to_upgrade_after_atom_is_dropped =
    creates 1 (97 ∷ []) ∷ downgrades 1 1 ∷ drops 1 ∷ dead 1 ∷ []

abbrev upgraded_atom_keeps_value_alive : Script
upgraded_atom_keeps_value_alive =
    creates 1 (97 ∷ [])
    ∷ downgrades 1 1
    ∷ upgrades 1 2
    ∷ drops 1
    ∷ upgrades 1 3
    ∷ reads 3 (97 ∷ [])
    ∷ drops 3
    ∷ drops 2
    ∷ dead 1
    ∷ []

-- A clone of a weak handle is that handle again.
abbrev cloned_weak_atom_behaves_like_the_original : Script
cloned_weak_atom_behaves_like_the_original =
    creates 1 (97 ∷ [])
    ∷ downgrades 1 1
    ∷ downgrades 1 2
    ∷ upgrades 2 2
    ∷ drops 2
    ∷ drops 1
    ∷ dead 1
    ∷ dead 2
    ∷ []

abbrev scripts : List Script
scripts =
    new_stores_string_contents ∷ as_ref_and_borrow_return_the_same_str ∷ atoms_compare_by_content
    ∷ atom_compares_with_str_in_both_directions ∷ from_str_and_from_string_build_atoms
    ∷ weak_atom_upgrades_while_atom_is_alive ∷ weak_atom_fails_to_upgrade_after_atom_is_dropped
    ∷ upgraded_atom_keeps_value_alive ∷ cloned_weak_atom_behaves_like_the_original ∷ []

atoms_pass : all_pass passes scripts ≡ true
unfolding all_pass passes run act bool_eq new as_str str_eq eq eq_str drop_atom downgrade_atom
    upgrade_atom drop upgrade_weak
atoms_pass = refl
