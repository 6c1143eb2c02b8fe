-- ===== src/Upgrade/Counts.antt =====
-- The strong counts under `upgrade` and `drop` (src/upgrade.rs).
use eneste_rs.Prelude.{
  ℕ, ◌+◌, ◌-◌, ◌≡◌, refl, Bool, true, false, not, ◌&&◌, none, some, ◌==◌, arith, if◌then◌else◌,
  update, Bool-cases, inl, inr, ◌⊎◌, ap, ap₂, ◌∙◌,
}
use eneste_rs.Upgrade.{Store, Value, Handle, downgrade, drop, upgrade}

-- How often a value holds an allocation
abbrev pub refs : Value → ℕ → ℕ
refs (Value.rc a) b = if a == b then 1 else 0
refs (Value.weak a) b = 0
refs (Value.primitive n) b = 0
refs Value.nothing b = 0
refs (Value.just v) b = refs v b
refs (Value.single v) b = refs v b
refs (Value.pair v w) b = refs v b + refs w b

-- Every allocation that a handle refers to is alive.
abbrev pub alive : Handle → Store → Bool
alive (Handle.weak a) s = not (s a == 0)
alive (Handle.primitive n) s = true
alive Handle.nothing s = true
alive (Handle.just h) s = alive h s
alive (Handle.single h) s = alive h s
alive (Handle.pair h k) s = alive h s && alive k s

pub drop_lem : (v : Value) (s : Store) (a : ℕ) → drop v s a ≡ s a - refs v a
unfolding drop
drop_lem (Value.rc b) s a = ground arith
drop_lem (Value.weak b) s a = omega arith
drop_lem (Value.primitive n) s a = omega arith
drop_lem Value.nothing s a = omega arith
drop_lem (Value.just v) s a = drop_lem v s a
drop_lem (Value.single v) s a = drop_lem v s a
drop_lem (Value.pair v w) s a = omega (arith, drop_lem w (drop v s) a, drop_lem v s a)

-- Counts that were raised, and only where something was alive, leave the same alive.
alive-raised :
    (h : Handle) (s t : Store) → ((a : ℕ) → (t a == 0) ≡ (s a == 0)) → alive h t ≡ alive h s
alive-raised (Handle.weak a) s t e = rw (e a) refl
alive-raised (Handle.primitive n) s t e = refl
alive-raised Handle.nothing s t e = refl
alive-raised (Handle.just h) s t e = alive-raised h s t e
alive-raised (Handle.single h) s t e = alive-raised h s t e
alive-raised (Handle.pair h k) s t e = rw (alive-raised h s t e, alive-raised k s t e) refl

-- The upgrade succeeded, and the value holds what was added to the counts.
pub record Raised (h : Handle) (s t : Store) (v : Value) : Type 0 where
  pub back : downgrade v ≡ h
  pub added : (a : ℕ) → t a ≡ s a + refs v a
  pub lived : (a : ℕ) → (t a == 0) ≡ (s a == 0)

pub upgrade-cases :
    (h : Handle) (s : Store)
    → ((t : Store) × (v : Value) × (upgrade h s ≡ (t, some v))
        × (alive h s ≡ true)
        × Raised h s t v)
      ⊎ ((t : Store) × (upgrade h s ≡ (t, none)) × (alive h s ≡ false) × ((a : ℕ) → t a ≡ s a))
unfolding upgrade downgrade
upgrade-cases (Handle.weak a) s = elim (Bool-cases (s a == 0)) [
  | inl z ↦ inr (s, ground (arith, z), ground (arith, z), λ b. refl)
  | inr z ↦ inl (
    update s a (s a + 1),
    Value.rc a,
    ground (arith, z),
    ground (arith, z),
    record { back = refl; added = λ b. ground arith; lived = λ b. ground (arith, z) },
  )
]
upgrade-cases (Handle.primitive n) s = inl (
  s,
  Value.primitive n,
  refl,
  refl,
  record { back = refl; added = λ b. omega arith; lived = λ b. refl },
)
upgrade-cases Handle.nothing s = inl (
  s,
  Value.nothing,
  refl,
  refl,
  record { back = refl; added = λ b. omega arith; lived = λ b. refl },
)
upgrade-cases (Handle.just h) s = elim (upgrade-cases h s) [
  | inl (t, v, e, f, r) ↦ inl (
    t,
    Value.just v,
    ground (arith, e),
    f,
    record { back = ap Handle.just r.back; added = r.added; lived = r.lived },
  )
  | inr (t, e, f, r) ↦ inr (t, ground (arith, e), f, r)
]
upgrade-cases (Handle.single h) s = elim (upgrade-cases h s) [
  | inl (t, v, e, f, r) ↦ inl (
    t,
    Value.single v,
    ground (arith, e),
    f,
    record { back = ap Handle.single r.back; added = r.added; lived = r.lived },
  )
  | inr (t, e, f, r) ↦ inr (t, ground (arith, e), f, r)
]
upgrade-cases (Handle.pair h k) s = elim (upgrade-cases h s) [
  | inr (t, e, f, r) ↦ inr (t, ground (arith, e), ground (arith, f), r)
  | inl (t, v, e, f, r) ↦ elim (upgrade-cases k t) [
    | inl (u, w, e', f', r') ↦ inl (
      u,
      Value.pair v w,
      ground (arith, e, e'),
      ground (arith, f, f', alive-raised k s t r.lived),
      record {
        back = ap₂ Handle.pair r.back r'.back;
        added = λ a. omega (arith, r.added a, r'.added a);
        lived = λ a. r'.lived a ∙ r.lived a;
      },
    )
    | inr (u, e', f', r') ↦ inr (
      drop v u,
      ground (arith, e, e'),
      ground (arith, f, f', alive-raised k s t r.lived),
      λ a. omega (arith, drop_lem v u a, r.added a, r' a),
    )
  ]
]
