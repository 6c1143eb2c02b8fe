-- ===== src/Upgrade.antt =====
-- src/upgrade.rs: weak handles, and the values they come from. A value is of any type that the crate's
-- implementations of `Downgrade` and `Upgrade` build from `Rc`, `Weak`, primitives, options and tuples.
-- A shared allocation is its number, and the store gives its strong count. References and `Arc` behave
-- as what they refer to and as `Rc`; the wrappers `Atom` (src/atom.rs) and the observable cells are a
-- single `Rc`. A tuple of more than two is a pair whose second part is the rest.
-- A count has no upper bound: the overflow at which `Rc`
-- aborts is left out.
pub mod Counts
pub mod Laws
mod Tests
use eneste_rs.Prelude.{
  ℕ, ◌+◌, ◌-◌, Bool, true, false, ◌&&◌, not, Option, none, some, ◌==◌, if◌then◌else◌, update,
}

-- The strong counts of the allocations; zero for one that is gone
abbrev pub Store : Type 0
Store = ℕ → ℕ

-- A value that implements `Downgrade`
pub data Value : Type 0 where
  rc : ℕ → Value
  weak : ℕ → Value
  primitive : ℕ → Value
  nothing : Value
  just : Value → Value
  single : Value → Value
  pair : Value → Value → Value

-- A value that implements `Upgrade`
pub data Handle : Type 0 where
  weak : ℕ → Handle
  primitive : ℕ → Handle
  nothing : Handle
  just : Handle → Handle
  single : Handle → Handle
  pair : Handle → Handle → Handle

-- `Downgrade::downgrade`
unfoldable pub downgrade : Value → Handle
downgrade (Value.rc a) = Handle.weak a
downgrade (Value.weak a) = Handle.weak a
downgrade (Value.primitive n) = Handle.primitive n
downgrade Value.nothing = Handle.nothing
downgrade (Value.just v) = Handle.just (downgrade v)
downgrade (Value.single v) = Handle.single (downgrade v)
downgrade (Value.pair v w) = Handle.pair (downgrade v) (downgrade w)

-- The drop of a value: each `Rc` in it gives its count back.
unfoldable pub drop : Value → Store → Store
drop (Value.rc a) s = update s a (s a - 1)
drop (Value.weak a) s = s
drop (Value.primitive n) s = s
drop Value.nothing s = s
drop (Value.just v) s = drop v s
drop (Value.single v) s = drop v s
drop (Value.pair v w) s = drop w (drop v s)

-- `Weak::upgrade` of the standard library
unfoldable pub upgrade_weak : ℕ → Store → Store × Option Value
upgrade_weak a s = if s a == 0 then (s, none) else (update s a (s a + 1), some (Value.rc a))

-- `Upgrade::upgrade`. Where a later part of a tuple fails, the parts before it are dropped.
unfoldable pub upgrade : Handle → Store → Store × Option Value
unfolding upgrade_weak drop
upgrade (Handle.weak a) s = upgrade_weak a s
upgrade (Handle.primitive n) s = (s, some (Value.primitive n))
upgrade Handle.nothing s = (s, some Value.nothing)
upgrade (Handle.just h) s =
    let (t, r) = upgrade h s in (t, elim r [ none ↦ none | some v ↦ some (Value.just v) ])
upgrade (Handle.single h) s =
    let (t, r) = upgrade h s in (t, elim r [ none ↦ none | some v ↦ some (Value.single v) ])
upgrade (Handle.pair h k) s =
    let (t, r) = upgrade h s in
    elim r [
      | none ↦ (t, none)
      | some v ↦
          let (u, q) = upgrade k t in
          elim q [ none ↦ (drop v u, none) | some w ↦ (u, some (Value.pair v w)) ]
    ]
