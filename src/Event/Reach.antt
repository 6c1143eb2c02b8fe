-- ===== src/Event/Reach.antt =====
-- Every history of an event (src/event.rs), from its creation to its drop.
use eneste_rs.Prelude.{
  ℕ, suc, ◌+◌, ◌<◌, ◌≡◌, refl, [], ◌∷◌, some, arith, length, usize_mod, Option-cases, inl, inr,
  subst,
}
use eneste_rs.Event.Map.{BTreeMap, get, Ordered}
use eneste_rs.Event.{
  ListenerEntry, Inner, Notification, Poll, Waker, new_with, listen, notify, poll, drop_listener,
  drop_event, take_wakers,
}
use eneste_rs.Event.Sweep.{notified_entries}
use eneste_rs.Event.Invariant.{Inv, listen_lem, listened-Inv, notify-Inv}
use eneste_rs.Event.Listener.{
  entry_cases, poll-waiting, poll-notified, polled-Inv, taken-Inv, drop_listener-Inv,
}

module _ {T : Type 0} where
  notified-take_wakers :
      (m : BTreeMap (ListenerEntry T)) → notified_entries (take_wakers m).0 ≡ notified_entries m
  unfolding take_wakers
  notified-take_wakers [] = refl
  notified-take_wakers ((id, x) ∷ m) = ground (arith, notified-take_wakers m)

  length-take_wakers : (m : BTreeMap (ListenerEntry T)) → length (take_wakers m).0 ≡ length m
  unfolding take_wakers
  length-take_wakers [] = refl
  length-take_wakers ((id, x) ∷ m) = ground (arith, length-take_wakers m)

  take_wakers-Ordered :
      (lo : ℕ) (m : BTreeMap (ListenerEntry T)) (hi : ℕ)
      → Ordered lo m hi
      → Ordered lo (take_wakers m).0 hi
  unfolding take_wakers
  take_wakers-Ordered lo [] hi h = h
  take_wakers-Ordered lo ((id, x) ∷ m) hi h = (h.0, h.1, take_wakers-Ordered (suc id) m hi h.2)

  pub drop_event-Inv : (e : Inner T) → Inv e → Inv (drop_event e)
  unfolding drop_event
  drop_event-Inv e v = record {
    ordered = take_wakers-Ordered 0 e.listeners e.next_id v.ordered;
    counted = omega (arith, v.counted, notified-take_wakers e.listeners);
    few = omega (arith, v.few, length-take_wakers e.listeners);
    small = v.small;
  }

  pub poll-Inv :
      (e e' : Inner T) (id : ℕ) (cx : Waker) (r : Poll T)
      → Inv e
      → poll e id cx ≡ some (e', r)
      → Inv e'
  unfolding poll
  poll-Inv e e' id cx r v h = elim (Option-cases (get id e.listeners)) [
    | inl g ↦ ground arith
    | inr (entry, g) ↦ elim (entry_cases e id g) [
      | inl (w, g') ↦
          let p = polled-Inv e id cx w v g' in let q = poll-waiting e id cx w g' in subst Inv (cc) p
      | inr (w, tag, g') ↦
          let p = taken-Inv e id w tag v g' in
          let q = poll-notified e id cx w tag g' in subst Inv (cc) p
    ]
  ]

  -- One call on an event or on one of its listeners.
  pub data Step (e : Inner T) : Inner T → Type 0 where
    listens : e.next_id + 1 < usize_mod → Step e (listen e).0
    notifies : (n : Notification T) → n.count < usize_mod → Step e (notify e n)
    polls :
        (id : ℕ) (cx : Waker) (r : Poll T) {e' : Inner T} → poll e id cx ≡ some (e', r) → Step e e'
    drops : (id : ℕ) → Step e (drop_listener e id)
    closes : Step e (drop_event e)

  pub data Reach : Inner T → Type 0 where
    created : Reach new_with
    after : {e e' : Inner T} → Reach e → Step e e' → Reach e'

  pub Step-Inv : {e e' : Inner T} → Step e e' → Inv e → Inv e'
  Step-Inv {e} (listens h) v = rw (listen_lem e v h) (listened-Inv e v h)
  Step-Inv {e} (notifies n h) v = notify-Inv e n v h
  Step-Inv {e} {e'} (polls id cx r h) v = poll-Inv e e' id cx r v h
  Step-Inv {e} (drops id) v = drop_listener-Inv e id v
  Step-Inv {e} closes v = drop_event-Inv e v

  -- After every history the ids in the map rise and stay below `next_id`, and `notified` is the number
  -- of listeners with a value that was not taken: the counter never drifts, and never leaves `usize`.
  pub Reach-Inv : {e : Inner T} → Reach e → Inv e
  unfolding new_with
  Reach-Inv created = record {
    ordered = omega arith;
    counted = refl;
    few = omega arith;
    small = omega arith;
  }
  Reach-Inv (after r st) = Step-Inv st (Reach-Inv r)
