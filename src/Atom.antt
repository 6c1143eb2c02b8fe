-- ===== src/Atom.antt =====
-- src/atom.rs: shared strings and their weak handles. A string is the list of its bytes. An atom is a
-- single `Rc<str>`, so that its strong count moves as in Upgrade.antt.
pub mod Life
mod Tests
use eneste_rs.Prelude.{
  ℕ, ◌+◌, Bool, true, false, ◌&&◌, List, [], ◌∷◌, Option, none, some, ◌==◌, update,
}
use eneste_rs.Upgrade.{Store, Value, drop, upgrade_weak}

-- The allocated strings: their strong counts, their bytes, and the number of the next one
pub record Strings : Type 0 where
  pub counts : Store
  pub bytes : ℕ → List ℕ
  pub next : ℕ

pub record Atom : Type 0 where
  pub value : ℕ

pub record WeakAtom : Type 0 where
  pub value : ℕ

-- `Atom::new`, and the conversions from `&str` and `String`
unfoldable pub new : Strings → List ℕ → Strings × Atom
new s text = (
  record {
    counts = update s.counts s.next 1;
    bytes = update s.bytes s.next text;
    next = s.next + 1;
  },
  record { value = s.next },
)

-- `Atom::as_str`, which `as_ref`, `borrow` and `deref` return, and `fmt` prints
unfoldable pub as_str : Strings → Atom → List ℕ
as_str s a = s.bytes a.value

-- `==` of `str`
unfoldable pub str_eq : List ℕ → List ℕ → Bool
str_eq [] [] = true
str_eq [] (y ∷ ys) = false
str_eq (x ∷ xs) [] = false
str_eq (x ∷ xs) (y ∷ ys) = (x == y) && str_eq xs ys

-- `==` of two atoms, and of an atom and a `str`
unfoldable pub eq : Strings → Atom → Atom → Bool
eq s a b = str_eq (as_str s a) (as_str s b)

unfoldable pub eq_str : Strings → Atom → List ℕ → Bool
eq_str s a text = str_eq (as_str s a) text

unfoldable pub drop_atom : Strings → Atom → Strings
drop_atom s a = record s { counts = drop (Value.rc a.value) s.counts }

unfoldable pub downgrade_atom : Atom → WeakAtom
downgrade_atom a = record { value = a.value }

unfoldable pub upgrade_atom : Strings → WeakAtom → Strings × Option Atom
upgrade_atom s w =
    let (counts, r) = upgrade_weak w.value s.counts in
    (
      record s { counts = counts },
      elim r [ none ↦ none | some v ↦ some (record { value = w.value }) ],
    )
