-- ===== src/Event/Counts.antt =====
-- How the map operations and `hand_on` of src/event.rs change the number of notified entries.
use eneste_rs.Prelude.{
  ℕ, ◌+◌, ◌≤◌, ◌≡◌, refl, Bool, true, false, [], ◌∷◌, ◌++◌, append-nil, none, some, arith, ◌==◌,
  if◌then◌else◌, length,
}
use eneste_rs.Event.Map.{BTreeMap, get, remove, set_value}
use eneste_rs.Event.{ListenerEntry, entry_is_notified, wakes, hand_on}
use eneste_rs.Event.Sweep.{
  notified_entries, waiting_entries, mark, mark_wakers, mark-zero, mark_wakers-zero,
}

abbrev pub one_if : Bool → ℕ
one_if true = 1
one_if false = 0

module _ {T : Type 0} where
  pub notified-append :
      (m : BTreeMap (ListenerEntry T)) (id : ℕ) (e : ListenerEntry T)
      → notified_entries (m ++ (id, e) ∷ []) ≡ notified_entries m + one_if (entry_is_notified e)
  notified-append [] id e = ground arith
  notified-append ((i, x) ∷ m) id e = ground (arith, notified-append m id e)

  pub notified-remove :
      (id : ℕ) (m : BTreeMap (ListenerEntry T)) (e : ListenerEntry T)
      → get id m ≡ some e
      → notified_entries (remove id m) + one_if (entry_is_notified e) ≡ notified_entries m
  unfolding get remove
  notified-remove id [] e h = cc
  notified-remove id ((i, x) ∷ m) e h = ground (arith, notified-remove id m e)

  pub length-remove :
      (id : ℕ) (m : BTreeMap (ListenerEntry T)) (e : ListenerEntry T)
      → get id m ≡ some e
      → length (remove id m) + 1 ≡ length m
  unfolding get remove
  length-remove id [] e h = cc
  length-remove id ((i, x) ∷ m) e h = ground (arith, length-remove id m e)

  pub notified-set_value :
      (id : ℕ) (v : ListenerEntry T) (m : BTreeMap (ListenerEntry T)) (e : ListenerEntry T)
      → get id m ≡ some e
      → notified_entries (set_value id v m) + one_if (entry_is_notified e)
        ≡ notified_entries m + one_if (entry_is_notified v)
  unfolding get set_value
  notified-set_value id v [] e h = cc
  notified-set_value id v ((i, x) ∷ m) e h = ground (arith, notified-set_value id v m e)

  pub remove-set_value :
      (id : ℕ) (v : ListenerEntry T) (m : BTreeMap (ListenerEntry T))
      → remove id (set_value id v m) ≡ remove id m
  unfolding remove set_value
  remove-set_value id v [] = refl
  remove-set_value id v ((i, x) ∷ m) = ground (arith, remove-set_value id v m)

  pub notified_pos :
      (id : ℕ) (m : BTreeMap (ListenerEntry T)) (e : ListenerEntry T)
      → get id m ≡ some e
      → entry_is_notified e ≡ true
      → 1 ≤ notified_entries m
  notified_pos id m e h k = ground (arith, notified-remove id m e h)

  -- The first waiting listener takes over the value, if there is one.
  pub hand_on-mark :
      (tag : T) (m : BTreeMap (ListenerEntry T))
      → hand_on (some tag) m
        ≡ (if waiting_entries m == 0 then none else some (mark 1 tag m, mark_wakers 1 m))
  unfolding hand_on mark mark_wakers
  hand_on-mark tag [] = refl
  hand_on-mark tag ((i, x) ∷ m) =
      ground
        (arith, hand_on-mark tag m, mark-zero tag m, mark_wakers-zero m, append-nil (wakes x.waker))
