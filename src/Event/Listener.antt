-- ===== src/Event/Listener.antt =====
-- `EventListener` of src/event.rs: registering, polling and dropping keep the event well formed, and
-- what a future does when it goes to sleep on an event or takes a notification.
use eneste_rs.Prelude.{
  ℕ, suc, ◌+◌, ◌-◌, ◌<◌, ◌≡◌, refl, [], ◌∷◌, ◌++◌, Option, none, some, arith, length-append,
  usize_mod, Option-cases, inl, inr, ◌⊎◌, ==-self, ◌∙◌,
}
use eneste_rs.Event.Map.{
  BTreeMap, get, set_value, Ordered-last, remove-Ordered, set_value-Ordered, length-set_value,
  get_above, get-append, get-set_value,
}
use eneste_rs.Event.{ListenerEntry, Inner, ready, pending, Waker, drop_listener, poll}
use eneste_rs.Event.Counts.{
  notified-append, notified-remove, length-remove, notified-set_value, remove-set_value,
}
use eneste_rs.Event.Invariant.{
  Inv, fresh_entry, listened, notified_first-Inv, removed, drop_listener-waiting,
  drop_listener-notified,
}

module _ {T : Type 0} where
  abbrev pub waiting_entry : Option Waker → ListenerEntry T
  waiting_entry w = record { waker = w; value = none }

  abbrev pub notified_entry : Option Waker → T → ListenerEntry T
  notified_entry w tag = record { waker = w; value = some tag }

  -- A registered listener waits or has a value.
  pub entry_cases :
      (e : Inner T) (id : ℕ) {entry : ListenerEntry T}
      → get id e.listeners ≡ some entry
      → ((w : Option Waker) × (get id e.listeners ≡ some (waiting_entry w)))
        ⊎ ((w : Option Waker) × (tag : T) × (get id e.listeners ≡ some (notified_entry w tag)))
  entry_cases e id {entry} g = elim (Option-cases entry.value) [
    | inl p ↦ inl (entry.waker, ground arith)
    | inr (tag, p) ↦ inr (entry.waker, tag, ground arith)
  ]

  pub removed-Inv :
      (e : Inner T) (id : ℕ) (w : Option Waker)
      → Inv e
      → get id e.listeners ≡ some (waiting_entry w)
      → Inv (removed e id)
  removed-Inv e id w v g = record {
    ordered = remove-Ordered id 0 e.listeners e.next_id v.ordered;
    counted = omega (arith, v.counted, notified-remove id e.listeners (waiting_entry w) g);
    few = omega (arith, v.few, length-remove id e.listeners (waiting_entry w) g);
    small = v.small;
  }

  -- A listener that took its value, and was dropped.
  abbrev pub consumed : Inner T → ℕ → Inner T
  consumed e id = record (removed e id) { notified = e.notified - 1 }

  pub consumed-Inv :
      (e : Inner T) (id : ℕ) (w : Option Waker) (tag : T)
      → Inv e
      → get id e.listeners ≡ some (notified_entry w tag)
      → Inv (consumed e id)
  consumed-Inv e id w tag v g = record {
    ordered = remove-Ordered id 0 e.listeners e.next_id v.ordered;
    counted = omega (arith, v.counted, notified-remove id e.listeners (notified_entry w tag) g);
    few = omega (arith, v.few, length-remove id e.listeners (notified_entry w tag) g);
    small = v.small;
  }

  pub drop_listener-Inv : (e : Inner T) (id : ℕ) → Inv e → Inv (drop_listener e id)
  unfolding drop_listener
  drop_listener-Inv e id v = elim (Option-cases (get id e.listeners)) [
    | inl g ↦ rw (g, drop_listener) v
    | inr (entry, g) ↦ elim (entry_cases e id g) [
      | inl (w, g') ↦ rw (drop_listener-waiting e id w g') (removed-Inv e id w v g')
      | inr (w, tag, g') ↦
          rw (drop_listener-notified e id w tag v g')
            (notified_first-Inv (consumed e id) _ tag (consumed-Inv e id w tag v g') (omega arith))
    ]
  ]

  -- A registered listener never meets the `unreachable!` of `poll`, and its poll is ready exactly if
  -- it was notified.
  abbrev pub polled : Inner T → ℕ → Waker → Inner T
  polled e id cx = record e { listeners = set_value id (waiting_entry (some cx)) e.listeners }

  abbrev pub taken : Inner T → ℕ → Option Waker → Inner T
  taken e id w = record e {
    listeners = set_value id (waiting_entry w) e.listeners;
    notified = e.notified - 1;
  }

  pub poll-waiting :
      (e : Inner T) (id : ℕ) (cx : Waker) (w : Option Waker)
      → get id e.listeners ≡ some (waiting_entry w)
      → poll e id cx ≡ some (polled e id cx, pending)
  unfolding poll
  poll-waiting e id cx w g = rw (g, poll) refl

  pub poll-notified :
      (e : Inner T) (id : ℕ) (cx : Waker) (w : Option Waker) (tag : T)
      → get id e.listeners ≡ some (notified_entry w tag)
      → poll e id cx ≡ some (taken e id w, ready tag)
  unfolding poll
  poll-notified e id cx w tag g = rw (g, poll) refl

  pub polled-Inv :
      (e : Inner T) (id : ℕ) (cx : Waker) (w : Option Waker)
      → Inv e
      → get id e.listeners ≡ some (waiting_entry w)
      → Inv (polled e id cx)
  polled-Inv e id cx w v g =
      let e' = waiting_entry (some cx) in
      record {
        ordered = set_value-Ordered id e' 0 e.listeners e.next_id v.ordered;
        counted =
            omega (arith, v.counted, notified-set_value id e' e.listeners (waiting_entry w) g);
        few = omega (arith, v.few, length-set_value id e' e.listeners);
        small = v.small;
      }

  pub taken-Inv :
      (e : Inner T) (id : ℕ) (w : Option Waker) (tag : T)
      → Inv e
      → get id e.listeners ≡ some (notified_entry w tag)
      → Inv (taken e id w)
  taken-Inv e id w tag v g =
      let e' = waiting_entry w in
      record {
        ordered = set_value-Ordered id e' 0 e.listeners e.next_id v.ordered;
        counted =
            omega (arith, v.counted, notified-set_value id e' e.listeners (notified_entry w tag) g);
        few = omega (arith, v.few, length-set_value id e' e.listeners);
        small = v.small;
      }

  -- The value is taken before the listener is dropped, so nothing is handed on.
  pub drop_listener-taken :
      (e : Inner T) (id : ℕ) (w : Option Waker) (tag : T)
      → get id e.listeners ≡ some (notified_entry w tag)
      → drop_listener (taken e id w) id ≡ consumed e id
  drop_listener-taken e id w tag g =
      drop_listener-waiting (taken e id w) id w
        (get-set_value id id (waiting_entry w) e.listeners g ∙ rw (==-self id) refl)
      ∙ rw (remove-set_value id (waiting_entry w) e.listeners) refl

  -- A future that goes to sleep: it registers, and leaves its waker at the first poll.
  abbrev pub parked : Inner T → Waker → Inner T
  parked e cx = record e {
    listeners = e.listeners ++ (e.next_id, waiting_entry (some cx)) ∷ [];
    next_id = e.next_id + 1;
  }

  set_value-append :
      (id : ℕ) (m : BTreeMap (ListenerEntry T)) (v w : ListenerEntry T)
      → get id m ≡ none
      → set_value id v (m ++ (id, w) ∷ []) ≡ m ++ (id, v) ∷ []
  unfolding get set_value
  set_value-append id [] v w g = rw (==-self id) refl
  set_value-append id ((j, u) ∷ m) v w g = ground (arith, set_value-append id m v w)

  pub poll-listened :
      (e : Inner T) (cx : Waker)
      → Inv e
      → poll (listened e) e.next_id cx ≡ some (parked e cx, pending)
  poll-listened e cx v =
      let g = get_above 0 e.listeners e.next_id e.next_id v.ordered (omega arith) in
      poll-waiting (listened e) e.next_id cx none
        (get-append e.next_id e.listeners e.next_id fresh_entry g ∙ rw (==-self e.next_id) refl)
      ∙ rw (set_value-append e.next_id e.listeners (waiting_entry (some cx)) fresh_entry g) refl

  pub parked-Inv :
      (e : Inner T) (cx : Waker) → Inv e → e.next_id + 1 < usize_mod → Inv (parked e cx)
  parked-Inv e cx v h =
      let e' = waiting_entry (some cx) in
      let o = Ordered-last 0 e.listeners e.next_id e' v.ordered in
      let s : suc e.next_id ≡ e.next_id + 1 = omega arith in
      record {
        ordered = rw s at o;
        counted = omega (arith, v.counted, notified-append e.listeners e.next_id e');
        few = omega (arith, v.few, length-append e.listeners ((e.next_id, e') ∷ []));
        small = h;
      }
