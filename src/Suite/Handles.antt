-- ===== src/Suite/Handles.antt =====
-- The unit tests of src/upgrade.rs: values and their handles, over one store of strong counts.
use eneste_rs.Prelude.{
  ℕ, ◌+◌, Bool, true, false, ◌&&◌, List, [], ◌∷◌, Option, none, some, ◌==◌, ◌≡◌, refl, update,
}
use eneste_rs.Upgrade.{Store, Value, Handle, downgrade, drop, upgrade_weak, upgrade}
use eneste_rs.Suite.{run, option_eq, all_pass}

-- Handles are named by numbers, and an allocation is its number, so that equal values are the same
-- allocations. `alive` is an upgrade whose value is dropped at once, `upgrades` one whose value is kept.
data Act : Type 0 where
  allocates : ℕ → Act
  clones : ℕ → Act
  drops : Value → Act
  downgrades : Value → ℕ → Act
  upgrades : ℕ → Value → Act
  alive : ℕ → Value → Act
  dead : ℕ → Act

record Scene : Type 0 where
  counts : Store
  handles : ℕ → Handle

unfoldable value_eq : Value → Value → Bool
value_eq (Value.rc a) (Value.rc b) = a == b
value_eq (Value.weak a) (Value.weak b) = a == b
value_eq (Value.primitive m) (Value.primitive n) = m == n
value_eq Value.nothing Value.nothing = true
value_eq (Value.just v) (Value.just w) = value_eq v w
value_eq (Value.single v) (Value.single w) = value_eq v w
value_eq (Value.pair v w) (Value.pair x y) = value_eq v x && value_eq w y
value_eq v w = false

unfoldable drop_option : Option Value → Store → Store
drop_option none s = s
drop_option (some v) s = drop v s

-- One call: the counts and handles after it, and whether its outcome is the asserted one.
unfoldable act : Act → Scene → Scene × Bool
act (allocates a) x = (record x { counts = update x.counts a 1 }, x.counts a == 0)
act (clones a) x = (record x { counts = update x.counts a (x.counts a + 1) }, true)
act (drops v) x = (record x { counts = drop v x.counts }, true)
act (downgrades v k) x = (record x { handles = update x.handles k (downgrade v) }, true)
act (upgrades k v) x =
    let (s, r) = upgrade (x.handles k) x.counts in
    (record x { counts = s }, option_eq value_eq r (some v))
act (alive k v) x =
    let (s, r) = upgrade (x.handles k) x.counts in
    (record x { counts = drop_option r s }, option_eq value_eq r (some v))
act (dead k) x =
    let (s, r) = upgrade (x.handles k) x.counts in
    (record x { counts = s }, option_eq value_eq r none)

unfoldable passes : List Act → Bool
passes script = run act script (record { counts = λ a. 0; handles = λ k. Handle.nothing })

abbrev Script : Type 0
Script = List Act

abbrev rc : ℕ → Value
rc a = Value.rc a

-- A temporary tuple, or option, of clones is downgraded and dropped.
abbrev both : ℕ → ℕ → Value
both a b = Value.pair (rc a) (rc b)

abbrev rc_downgrade_then_upgrade_returns_same_allocation : Script
rc_downgrade_then_upgrade_returns_same_allocation =
    allocates 1 ∷ downgrades (rc 1) 1 ∷ upgrades 1 (rc 1) ∷ []

abbrev rc_weak_fails_to_upgrade_after_drop : Script
rc_weak_fails_to_upgrade_after_drop = allocates 1 ∷ downgrades (rc 1) 1 ∷ drops (rc 1) ∷ dead 1 ∷ []

abbrev rc_weak_downgrade_is_a_clone : Script
rc_weak_downgrade_is_a_clone =
    allocates 1
    ∷ downgrades (rc 1) 1
    ∷ downgrades (Value.weak 1) 2
    ∷ alive 2 (rc 1)
    ∷ drops (rc 1)
    ∷ dead 2
    ∷ dead 1
    ∷ []

abbrev arc_downgrade_then_upgrade_returns_same_allocation : Script
arc_downgrade_then_upgrade_returns_same_allocation =
    allocates 1
    ∷ downgrades (rc 1) 1
    ∷ upgrades 1 (rc 1)
    ∷ drops (rc 1)
    ∷ drops (rc 1)
    ∷ dead 1
    ∷ []

abbrev arc_weak_downgrade_is_a_clone : Script
arc_weak_downgrade_is_a_clone =
    allocates 1
    ∷ downgrades (rc 1) 1
    ∷ downgrades (Value.weak 1) 2
    ∷ alive 2 (rc 1)
    ∷ drops (rc 1)
    ∷ dead 2
    ∷ []

abbrev option_some_downgrades_inner_value : Script
option_some_downgrades_inner_value =
    allocates 1
    ∷ clones 1
    ∷ downgrades (Value.just (rc 1)) 1
    ∷ drops (Value.just (rc 1))
    ∷ upgrades 1 (Value.just (rc 1))
    ∷ []

abbrev option_some_with_dead_inner_fails_to_upgrade : Script
option_some_with_dead_inner_fails_to_upgrade =
    allocates 1
    ∷ clones 1
    ∷ downgrades (Value.just (rc 1)) 1
    ∷ drops (Value.just (rc 1))
    ∷ drops (rc 1)
    ∷ dead 1
    ∷ []

abbrev option_none_upgrades_to_none_value : Script
option_none_upgrades_to_none_value = downgrades Value.nothing 1 ∷ upgrades 1 Value.nothing ∷ []

-- `(Rc::clone(&a),)` is a temporary, which is dropped at the end of its statement.
abbrev single_element_tuple_round_trips : Script
single_element_tuple_round_trips =
    allocates 1
    ∷ clones 1
    ∷ downgrades (Value.single (rc 1)) 1
    ∷ drops (Value.single (rc 1))
    ∷ upgrades 1 (Value.single (rc 1))
    ∷ []

-- The character is a number.
abbrev mixed_tuple_round_trips : Script
mixed_tuple_round_trips =
    let t =
      Value.pair (rc 1) (Value.pair (rc 2) (Value.pair (Value.primitive 3) (Value.primitive 99))) in
    allocates 1 ∷ allocates 2 ∷ clones 1 ∷ clones 2 ∷ downgrades t 1 ∷ drops t ∷ upgrades 1 t ∷ []

abbrev tuple_upgrade_fails_if_any_member_is_dead : Script
tuple_upgrade_fails_if_any_member_is_dead =
    let t = Value.pair (rc 1) (both 2 3) in
    allocates 1
    ∷ allocates 2
    ∷ allocates 3
    ∷ clones 1
    ∷ clones 2
    ∷ clones 3
    ∷ downgrades t 1
    ∷ drops t
    ∷ drops (rc 2)
    ∷ dead 1
    ∷ downgrades (rc 1) 2
    ∷ alive 2 (rc 1)
    ∷ downgrades (rc 3) 3
    ∷ alive 3 (rc 3)
    ∷ []

-- The second `a` is a new allocation, 3.
abbrev tuple_upgrade_fails_when_first_or_last_member_is_dead : Script
tuple_upgrade_fails_when_first_or_last_member_is_dead =
    allocates 1
    ∷ allocates 2
    ∷ clones 1
    ∷ clones 2
    ∷ downgrades (both 1 2) 1
    ∷ drops (both 1 2)
    ∷ drops (rc 1)
    ∷ dead 1
    ∷ allocates 3
    ∷ clones 3
    ∷ clones 2
    ∷ downgrades (both 3 2) 2
    ∷ drops (both 3 2)
    ∷ drops (rc 2)
    ∷ dead 2
    ∷ []

abbrev scripts : List Script
scripts =
    rc_downgrade_then_upgrade_returns_same_allocation ∷ rc_weak_fails_to_upgrade_after_drop
    ∷ rc_weak_downgrade_is_a_clone ∷ arc_downgrade_then_upgrade_returns_same_allocation
    ∷ arc_weak_downgrade_is_a_clone ∷ option_some_downgrades_inner_value
    ∷ option_some_with_dead_inner_fails_to_upgrade ∷ option_none_upgrades_to_none_value
    ∷ single_element_tuple_round_trips ∷ mixed_tuple_round_trips
    ∷ tuple_upgrade_fails_if_any_member_is_dead
    ∷ tuple_upgrade_fails_when_first_or_last_member_is_dead ∷ []

handles_pass : all_pass passes scripts ≡ true
unfolding all_pass passes run act value_eq drop_option option_eq downgrade drop upgrade_weak upgrade
handles_pass = refl
