-- ===== src/Atom/Tests.antt =====
-- Two atoms of src/atom.rs with one string.
use eneste_rs.Prelude.{◌≡◌, refl, true, false, [], ◌∷◌}
use eneste_rs.Atom.{Strings, Atom, new, as_str, str_eq, eq, eq_str}

abbrev no_strings : Strings
no_strings = record { counts = λ a. 0; bytes = λ a. []; next = 0 }

two_atoms : Strings × Atom × Atom
unfolding new
two_atoms =
    let (s, a) = new no_strings (104 ∷ 105 ∷ []) in let (t, b) = new s (104 ∷ 105 ∷ []) in (t, a, b)

equal_by_content : eq two_atoms.0 two_atoms.1 two_atoms.2 ≡ true
unfolding two_atoms eq as_str str_eq
equal_by_content = refl

other_text : eq_str two_atoms.0 two_atoms.1 (104 ∷ []) ≡ false
unfolding two_atoms eq_str as_str str_eq
other_text = refl
