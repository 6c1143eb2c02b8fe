-- ===== src/Upgrade/Tests.antt =====
-- Handles of src/upgrade.rs whose parts are alive or gone, and the theorems at them.
use eneste_rs.Prelude.{ℕ, ◌+◌, ◌≡◌, ◌⊎◌, refl, true, false, none, some, ◌==◌, if◌then◌else◌}
use eneste_rs.Upgrade.{Store, Value, Handle, downgrade, drop, upgrade}
use eneste_rs.Upgrade.Counts.{refs, alive}
use eneste_rs.Upgrade.Laws.{upgrade_all_or_nothing, upgrade-downgrade}

-- Allocation 1 has two owners, allocation 2 is gone.
abbrev counts : Store
counts a = if a == 1 then 2 else 0

abbrev twice : Value
twice = Value.pair (Value.rc 1) (Value.just (Value.pair (Value.primitive 7) (Value.rc 1)))

twice_counts : (upgrade (downgrade twice) counts).0 1 ≡ 4
unfolding upgrade downgrade
twice_counts = refl

-- The first part is upgraded, and dropped again when the second fails.
half_gone : (upgrade (Handle.pair (Handle.weak 1) (Handle.weak 2)) counts).1 ≡ none
unfolding upgrade
half_gone = refl

-- An option without a value always upgrades.
nothing_upgrades : upgrade Handle.nothing counts ≡ (counts, some Value.nothing)
unfolding upgrade
nothing_upgrades = refl

upgrade_all_or_nothing_example :
    ((alive (downgrade twice) counts ≡ true)
      × ((v : Value) × (t : Store) × (upgrade (downgrade twice) counts ≡ (t, some v))
          × (downgrade v ≡ downgrade twice)
          × ((a : ℕ) → t a ≡ counts a + refs v a)
          × (drop v t ≡ counts)))
    ⊎ ((alive (downgrade twice) counts ≡ false)
        × (upgrade (downgrade twice) counts ≡ (counts, none)))
upgrade_all_or_nothing_example = upgrade_all_or_nothing (downgrade twice) counts

upgrade-downgrade_example :
    (t : Store) × (upgrade (downgrade twice) counts ≡ (t, some twice))
    × ((a : ℕ) → t a ≡ counts a + refs twice a)
upgrade-downgrade_example = upgrade-downgrade twice counts (refl, (tt, refl))
