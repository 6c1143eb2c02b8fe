-- ===== src/Upgrade/Laws.antt =====
-- What a client of src/upgrade.rs can rely on.
use eneste_rs.Prelude.{
  ℕ, ◌+◌, ◌≡◌, ◌⊎◌, ◌∙◌, refl, ap, true, false, none, some, ◌==◌, arith, inl, inr, update,
}
use mathlib.Core.Path.{fun_ext}
use eneste_rs.Upgrade.{Store, Value, Handle, downgrade, drop, upgrade}
use eneste_rs.Upgrade.Counts.{refs, alive, drop_lem, upgrade-cases}

-- An upgrade is all or nothing, for any nesting of options and tuples. If every allocation of the handle
-- is alive, it gives a value that downgrades to the handle, each allocation gains as many strong counts
-- as the value holds it, and dropping the value restores all counts. Otherwise it gives nothing, and
-- every count is as before: the parts that were upgraded first have been dropped.
pub upgrade_all_or_nothing :
    (h : Handle) (s : Store)
    → ((alive h s ≡ true)
        × ((v : Value) × (t : Store) × (upgrade h s ≡ (t, some v))
            × (downgrade v ≡ h)
            × ((a : ℕ) → t a ≡ s a + refs v a)
            × (drop v t ≡ s)))
      ⊎ ((alive h s ≡ false) × (upgrade h s ≡ (s, none)))
upgrade_all_or_nothing h s = elim (upgrade-cases h s) [
  | inl (t, v, e, f, r) ↦
      inl (f, (v, t, e, r.back, r.added, fun_ext λ a. omega (arith, drop_lem v t a, r.added a)))
  | inr (t, e, f, same) ↦ let back : t ≡ s = fun_ext same in inr (f, e ∙ ap (λ x. (x, none)) back)
]

-- A value of `Rc`s, primitives, options and tuples, without a `Weak`, all of whose allocations are alive
abbrev pub IsOwned : Value → Store → Type 0
IsOwned (Value.rc a) s = (s a == 0) ≡ false
IsOwned (Value.weak a) s = ⊥
IsOwned (Value.primitive n) s = Unit
IsOwned Value.nothing s = Unit
IsOwned (Value.just v) s = IsOwned v s
IsOwned (Value.single v) s = IsOwned v s
IsOwned (Value.pair v w) s = IsOwned v s × IsOwned w s

IsOwned-raised :
    (v : Value) (s t : Store) → ((a : ℕ) → (t a == 0) ≡ (s a == 0)) → IsOwned v s → IsOwned v t
IsOwned-raised (Value.rc a) s t e o = e a ∙ o
IsOwned-raised (Value.weak a) s t e o = o
IsOwned-raised (Value.primitive n) s t e o = tt
IsOwned-raised Value.nothing s t e o = tt
IsOwned-raised (Value.just v) s t e o = IsOwned-raised v s t e o
IsOwned-raised (Value.single v) s t e o = IsOwned-raised v s t e o
IsOwned-raised (Value.pair v w) s t e o = (IsOwned-raised v s t e o.0, IsOwned-raised w s t e o.1)

-- The upgrade of a value's own handle.
own_handle :
    (v : Value) (s : Store)
    → IsOwned v s
    → (t : Store) × (upgrade (downgrade v) s ≡ (t, some v))
      × ((a : ℕ) → t a ≡ s a + refs v a)
      × ((a : ℕ) → (t a == 0) ≡ (s a == 0))
unfolding upgrade downgrade
own_handle (Value.rc a) s o =
    (update s a (s a + 1), ground (arith, o), λ b. ground arith, λ b. ground (arith, o))
own_handle (Value.weak a) s o = absurd o
own_handle (Value.primitive n) s o = (s, refl, λ a. omega arith, λ a. refl)
own_handle Value.nothing s o = (s, refl, λ a. omega arith, λ a. refl)
own_handle (Value.just v) s o = let (t, e, c, l) = own_handle v s o in (t, ground (arith, e), c, l)
own_handle (Value.single v) s o =
    let (t, e, c, l) = own_handle v s o in (t, ground (arith, e), c, l)
own_handle (Value.pair v w) s o =
    let (t, e, c, l) = own_handle v s o.0 in
    let (u, e', c', l') = own_handle w t (IsOwned-raised w s t l o.1) in
    (u, ground (arith, e, e'), λ a. omega (arith, c a, c' a), λ a. l' a ∙ l a)

-- The round trip of a value that is made of `Rc`s, primitives, options and tuples, without any `Weak` in
-- it, whose downgrade would come back as an `Rc`: as long as its allocations are alive, its downgraded
-- handle upgrades to the value itself, and adds what the value holds to the strong counts.
pub upgrade-downgrade :
    (v : Value) (s : Store)
    → IsOwned v s
    → (t : Store) × (upgrade (downgrade v) s ≡ (t, some v)) × ((a : ℕ) → t a ≡ s a + refs v a)
upgrade-downgrade v s o = let (t, e, c, l) = own_handle v s o in (t, e, c)
