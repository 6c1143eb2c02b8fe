-- ===== src/Event/Awake.antt =====
-- While somebody listens, a notification is on its way: what the operations of src/event.rs do to that.
use eneste_rs.Prelude.{
  ℕ, suc, ◌≡◌, true, [], ◌∷◌, ◌≤◌, ◌<◌, Option, some, arith, length, min, usize_mod, Option-cases,
  inl, inr,
}
use eneste_rs.Event.Map.{BTreeMap, Ordered, get_below, get, length-set_value}
use eneste_rs.Event.{ListenerEntry, Inner, Notification, Waker, notify, drop_listener}
use eneste_rs.Event.Sweep.{waiting-add-notified, notified_entries, length-mark}
use eneste_rs.Event.Counts.{length-remove}
use eneste_rs.Event.Invariant.{Inv, newly, notify_lem, drop_listener-waiting}
use eneste_rs.Event.Listener.{entry_cases, waiting_entry, notified_entry, polled}
use eneste_rs.Event.Registered.{registered}
use eneste_rs.Event.Notify.{drop_hands_on}

module _ {T : Type 0} where
  -- Nobody listens, or somebody has been notified.
  abbrev pub Awake : Inner T → Type 0
  Awake e = min 1 (length e.listeners) ≤ e.notified

  pub notify-Awake :
      (e : Inner T) (n : Notification T)
      → Inv e
      → n.count < usize_mod
      → 1 ≤ n.count
      → Awake (notify e n)
  notify-Awake e n v h p = rw (notify_lem e n v h) (
      ground (
        arith,
        v.counted,
        waiting-add-notified e.listeners,
        length-mark (newly e n) n.tag e.listeners,
      ))

  pub drop_listener-Awake : (e : Inner T) (id : ℕ) → Inv e → Awake e → Awake (drop_listener e id)
  unfolding drop_listener
  drop_listener-Awake e id v a = elim (Option-cases (get id e.listeners)) [
    | inl g ↦ rw (g, drop_listener) a
    | inr (x, g) ↦ elim (entry_cases e id g) [
      | inl (w, g') ↦
          rw (drop_listener-waiting e id w g')
            (omega (arith, length-remove id e.listeners (waiting_entry w) g'))
      | inr (w, tag, g') ↦ let d = drop_hands_on e id w tag v g' in omega (arith, d.2, d.3)
    ]
  ]

  pub polled-Awake : (e : Inner T) (id : ℕ) (cx : Waker) → Awake e → Awake (polled e id cx)
  polled-Awake e id cx a = omega (arith, length-set_value id (waiting_entry (some cx)) e.listeners)

  pub registered_pos : (e : Inner T) (id : ℕ) → registered e id ≡ true → 1 ≤ length e.listeners
  registered_pos e id h = elim (Option-cases (get id e.listeners)) [
    | inl g ↦ ground arith
    | inr (x, g) ↦ omega (arith, length-remove id e.listeners x g)
  ]

  -- A positive count has a notified listener behind it.
  pub find_notified :
      (lo : ℕ) (m : BTreeMap (ListenerEntry T)) (hi : ℕ)
      → Ordered lo m hi
      → 1 ≤ notified_entries m
      → (id : ℕ) × (w : Option Waker) × (tag : T) × (get id m ≡ some (notified_entry w tag))
  unfolding get
  find_notified lo [] hi o h = absurd (omega arith)
  find_notified lo ((j, x) ∷ m) hi o h = elim (Option-cases x.value) [
    | inl q ↦
        let (id, w, tag, g) = find_notified (suc j) m hi o.2 (ground arith) in
        (id, w, tag, ground (arith, get_below (suc j) m hi id o.2))
    | inr (tag, q) ↦ (j, x.waker, tag, ground arith)
  ]
