-- ===== src/Event/Registered.antt =====
-- Which listeners an event knows (src/event.rs), before and after each operation.
use eneste_rs.Prelude.{
  ℕ, ◌+◌, ◌-◌, ◌<◌, ◌≡◌, ◌∙◌, refl, Bool, true, false, [], ◌∷◌, none, some, arith, ◌==◌,
  if◌then◌else◌, usize_mod, is_some, Option-cases, Bool-cases, inl, inr,
}
use eneste_rs.Event.Map.{
  BTreeMap, get, get_above, get-append, get-append_some, set_value, get-set_value, get-remove_ne,
  get-remove_self,
}
use eneste_rs.Event.{
  ListenerEntry, Inner, Notification, Waker, notify, drop_listener, Poll, ready, pending, poll,
  notify_loop, take_wakers, notify_inner, notify_additional, notify_count, drop_event,
}
use eneste_rs.Event.Sweep.{mark}
use eneste_rs.Event.Invariant.{
  Inv, newly, notify_lem, removed, handed_on, drop_listener-waiting, drop_listener-notified,
}
use eneste_rs.Event.Listener.{entry_cases, waiting_entry, polled, parked}

module _ {T : Type 0} where
  abbrev pub registered : Inner T → ℕ → Bool
  registered e id = is_some (get id e.listeners)

  is_some-get-mark :
      (k : ℕ) (tag : T) (m : BTreeMap (ListenerEntry T)) (id : ℕ)
      → is_some (get id (mark k tag m)) ≡ is_some (get id m)
  unfolding get mark
  is_some-get-mark k tag [] id = refl
  is_some-get-mark k tag ((j, x) ∷ m) id =
      ground (arith, is_some-get-mark k tag m id, is_some-get-mark (k - 1) tag m id)

  is_some-get-notify_loop :
      (c : ℕ) (tag : T) (n : ℕ) (m : BTreeMap (ListenerEntry T)) (id : ℕ)
      → is_some (get id (notify_loop c tag n m).entries) ≡ is_some (get id m)
  unfolding get notify_loop
  is_some-get-notify_loop c tag n [] id = refl
  is_some-get-notify_loop c tag n ((j, x) ∷ m) id =
      ground
        (arith, is_some-get-notify_loop c tag n m id, is_some-get-notify_loop c tag (n + 1) m id)

  is_some-get-take_wakers :
      (m : BTreeMap (ListenerEntry T)) (id : ℕ)
      → is_some (get id (take_wakers m).0) ≡ is_some (get id m)
  unfolding get take_wakers
  is_some-get-take_wakers [] id = refl
  is_some-get-take_wakers ((j, x) ∷ m) id = ground (arith, is_some-get-take_wakers m id)

  -- A notification and the drop of the event leave every listener registered, on any event.
  pub registered-told :
      (e : Inner T) (n : Notification T) (id : ℕ) → registered (notify e n) id ≡ registered e id
  unfolding notify notify_inner notify_additional notify_count
  registered-told e n id = elim (Bool-cases n.is_additional) [
    | inl q ↦ rw (notify, q) (is_some-get-notify_loop _ n.tag 0 e.listeners id)
    | inr q ↦ rw (notify, q) (is_some-get-notify_loop _ n.tag 0 e.listeners id)
  ]

  pub registered-drop_event :
      (e : Inner T) (id : ℕ) → registered (drop_event e) id ≡ registered e id
  unfolding drop_event
  registered-drop_event e id = is_some-get-take_wakers e.listeners id

  -- A poll of a registered listener does not panic, and every listener stays registered.
  pub registered-poll :
      (e : Inner T) (id : ℕ) (cx : Waker)
      → registered e id ≡ true
      → (k : Inner T) × (r : Poll T) × (poll e id cx ≡ some (k, r))
        × ((j : ℕ) → registered k j ≡ registered e j)
  unfolding poll
  registered-poll e id cx h = elim (Option-cases (get id e.listeners)) [
    | inl g ↦ absurd (ground (arith, g, h))
    | inr (x, g) ↦ elim (Option-cases x.value) [
      | inl v ↦
          let y = record x { waker = some cx } in
          (
            record e { listeners = set_value id y e.listeners },
            pending,
            ground (arith, g, v),
            λ j. ground (arith, get-set_value id j y e.listeners g, g),
          )
      | inr (v, q) ↦
          let y = record x { value = none } in
          (
            record e { listeners = set_value id y e.listeners; notified = e.notified - 1 },
            ready v,
            ground (arith, g, q),
            λ j. ground (arith, get-set_value id j y e.listeners g, g),
          )
    ]
  ]

  pub registered-notify :
      (e : Inner T) (n : Notification T) (id : ℕ)
      → Inv e
      → n.count < usize_mod
      → registered (notify e n) id ≡ registered e id
  registered-notify e n id v h =
      rw (notify_lem e n v h) (is_some-get-mark (newly e n) n.tag e.listeners id)

  pub registered-polled :
      (e : Inner T) (id j : ℕ) (cx : Waker) {x : ListenerEntry T}
      → get id e.listeners ≡ some x
      → registered (polled e id cx) j ≡ registered e j
  registered-polled e id j cx g =
      ground (arith, get-set_value id j (waiting_entry (some cx)) e.listeners g, g)

  pub registered-removed :
      (e : Inner T) (id j : ℕ)
      → Inv e
      → registered (removed e id) j ≡ (if id == j then false else registered e j)
  registered-removed e id j v = elim (Bool-cases (id == j)) [
    | inl q ↦ ground (arith, get-remove_self id 0 e.listeners e.next_id v.ordered)
    | inr q ↦ ground (arith, get-remove_ne id j e.listeners (ground arith))
  ]

  pub registered-handed_on :
      (e : Inner T) (id j : ℕ) (tag : T)
      → Inv e
      → registered (handed_on e id tag) j ≡ (if id == j then false else registered e j)
  registered-handed_on e id j tag v =
      is_some-get-mark _ tag (removed e id).listeners j ∙ registered-removed e id j v

  pub registered-parked :
      (e : Inner T) (j : ℕ) (cx : Waker)
      → Inv e
      → registered (parked e cx) j ≡ (if e.next_id == j then true else registered e j)
  registered-parked e j cx v = elim (Option-cases (get j e.listeners)) [
    | inl g ↦ ground (arith, get-append j e.listeners e.next_id (waiting_entry (some cx)) g, g)
    | inr (x, g) ↦
        ground (arith, get-append_some j e.listeners e.next_id (waiting_entry (some cx)) g, g)
  ]

  pub registered-next_id : (e : Inner T) → Inv e → registered e e.next_id ≡ false
  registered-next_id e v =
      rw (get_above 0 e.listeners e.next_id e.next_id v.ordered (omega arith)) refl

  pub registered-drop_listener :
      (e : Inner T) (id j : ℕ)
      → Inv e
      → registered (drop_listener e id) j ≡ (if id == j then false else registered e j)
  unfolding drop_listener
  registered-drop_listener e id j v = elim (Option-cases (get id e.listeners)) [
    | inl g ↦ rw (g, drop_listener) (ground arith)
    | inr (x, g) ↦ elim (entry_cases e id g) [
      | inl (w, g') ↦ rw (drop_listener-waiting e id w g') (registered-removed e id j v)
      | inr (w, tag, g') ↦
          rw (drop_listener-notified e id w tag v g') (registered-handed_on e id j tag v)
    ]
  ]
