-- ===== src/Atom/Life.antt =====
-- The life of an atom of src/atom.rs: equality by content, and weak handles.
use eneste_rs.Prelude.{ℕ, ◌≡◌, ◌<◌, refl, ap₂, true, List, [], ◌∷◌, none, some, arith}
use eneste_rs.Upgrade.{drop, upgrade_weak}
use eneste_rs.Atom.{Strings, Atom, new, as_str, str_eq, eq, drop_atom, downgrade_atom, upgrade_atom}

str_eq_refl : (xs : List ℕ) → str_eq xs xs ≡ true
unfolding str_eq
str_eq_refl [] = refl
str_eq_refl (x ∷ xs) = ground (arith, str_eq_refl xs)

str_eq_sound : (xs ys : List ℕ) → str_eq xs ys ≡ true → xs ≡ ys
unfolding str_eq
str_eq_sound [] [] h = refl
str_eq_sound [] (y ∷ ys) h = ground arith
str_eq_sound (x ∷ xs) [] h = ground arith
str_eq_sound (x ∷ xs) (y ∷ ys) h =
    ap₂ (λ z zs. z ∷ zs) (ground arith) (str_eq_sound xs ys (ground arith))

-- Atoms are equal exactly if their strings are, whatever their allocations.
pub eq_lem :
    (s : Strings) (a b : Atom)
    → ((eq s a b ≡ true) → (as_str s a ≡ as_str s b))
      × ((as_str s a ≡ as_str s b) → (eq s a b ≡ true))
unfolding eq as_str
eq_lem s a b =
    (str_eq_sound (s.bytes a.value) (s.bytes b.value), λ h. rw h (str_eq_refl (s.bytes b.value)))

-- A new atom has its string, and no other atom's string changes. Its weak handle upgrades to an atom equal
-- to it; when both are dropped it does not upgrade any more.
pub life :
    (s : Strings) (text : List ℕ)
    → let (t, a) = new s text in
      let (u, r) = upgrade_atom t (downgrade_atom a) in
      (as_str t a ≡ text)
      × ((b : Atom) → b.value < s.next → as_str t b ≡ as_str s b)
      × (r ≡ some a)
      × (u.counts a.value ≡ 2)
      × ((upgrade_atom (drop_atom (drop_atom u a) a) (downgrade_atom a)).1 ≡ none)
unfolding new as_str upgrade_atom downgrade_atom drop_atom upgrade_weak drop
life s text = (ground arith, λ b h. ground arith, ground arith, ground arith, ground arith)
