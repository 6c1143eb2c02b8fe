-- ===== src/Event/Notify.antt =====
-- What `Event::notify` and the drop of a listener promise (src/event.rs).
use eneste_rs.Prelude.{
  ℕ, ◌+◌, ◌-◌, ◌<◌, ◌≡◌, refl, sym, true, false, ◌++◌, Option, none, some, arith, if◌then◌else◌,
  length, ap, min, Option-cases, inl, inr, ==-self, max, usize_mod, ◌⊎◌,
}
use eneste_rs.Event.Map.{get, remove, get-set_value}
use eneste_rs.Event.{
  ListenerEntry, Inner, Notification, entry_is_notified, notify, drop_listener, Waker,
  is_terminated, poll, ready,
}
use eneste_rs.Event.Sweep.{
  waiting_entries, waiting-add-notified, mark, mark_wakers, mark-min, mark_wakers-min, length-mark,
  get-mark, mark_fair,
}
use eneste_rs.Event.Counts.{length-remove, notified_pos}
use eneste_rs.Event.Invariant.{Inv, newly, notify_lem, drop_listener-notified}
use eneste_rs.Event.Listener.{consumed, consumed-Inv}

module _ {T : Type 0} where
  -- On a well-formed event, a plain notification of `n` brings the number of notified listeners up to
  -- `n`, as far as there are listeners, and never down; an additional one adds `n`, as far as there are
  -- listeners. It marks the first waiting listeners in the order of their ids, takes their wakers out
  -- and wakes exactly those.
  pub notify_count_exact :
      (e : Inner T) (n : Notification T)
      → Inv e
      → n.count < usize_mod
      → ((notify e n).notified ≡ (
          if n.is_additional
          then min (e.notified + n.count) (length e.listeners)
          else max e.notified (min n.count (length e.listeners))))
        × ((notify e n).listeners ≡ mark ((notify e n).notified - e.notified) n.tag e.listeners)
        × ((notify e n).woken
            ≡ e.woken ++ mark_wakers ((notify e n).notified - e.notified) e.listeners)
  notify_count_exact e n v h = rw (notify_lem e n v h) (
    ground (arith, v.counted, waiting-add-notified e.listeners),
    ap (λ k. mark k n.tag e.listeners) (omega arith),
    ap (λ k. e.woken ++ mark_wakers k e.listeners) (omega arith),
  )

  -- Whatever the notification, a listener that is registered stays so: its entry is unchanged, or it
  -- waited and now has the tag and no waker.
  pub notify_keeps :
      (e : Inner T) (n : Notification T) (i : ℕ) (a : ListenerEntry T)
      → Inv e
      → n.count < usize_mod
      → get i e.listeners ≡ some a
      → (get i (notify e n).listeners ≡ some a)
        ⊎ ((entry_is_notified a ≡ false)
            × (get i (notify e n).listeners ≡ some (record { waker = none; value = some n.tag })))
  notify_keeps e n i a v h g =
      rw (notify_lem e n v h) (get-mark (newly e n) n.tag e.listeners i a g)

  -- A notification passes nobody over: if listener `i` waits before and after it, then every later
  -- listener `j` that waited before is as it was.
  pub notify_fair :
      (e : Inner T) (n : Notification T) (i j : ℕ) (a b : ListenerEntry T)
      → Inv e
      → n.count < usize_mod
      → i < j
      → entry_is_notified a ≡ false
      → get i e.listeners ≡ some a
      → get i (notify e n).listeners ≡ some a
      → get j e.listeners ≡ some b
      → get j (notify e n).listeners ≡ some b
  notify_fair e n i j a b v h lt w gi k gj =
      let step = notify_lem e n v h in
      rw step (
        mark_fair (newly e n) n.tag 0 e.listeners e.next_id i j a b v.ordered lt gi (rw step at k) w
          gj)

  -- A listener that is dropped with a notification hands it on: the first of the remaining listeners that
  -- waits, in the order of their ids, gets the same value, loses its waker and is woken by it, and nobody
  -- else is touched; of the listeners that remain, as many are notified as before, or all of them.
  pub drop_hands_on :
      (e : Inner T) (id : ℕ) (w : Option Waker) (tag : T)
      → Inv e
      → get id e.listeners ≡ some (record { waker = w; value = some tag })
      → ((drop_listener e id).listeners ≡ mark 1 tag (remove id e.listeners))
        × ((drop_listener e id).woken ≡ e.woken ++ mark_wakers 1 (remove id e.listeners))
        × ((drop_listener e id).notified ≡ min e.notified (length e.listeners - 1))
        × (length (drop_listener e id).listeners ≡ length e.listeners - 1)
  drop_hands_on e id w tag v g =
      let c = consumed e id in
      let m = remove id e.listeners in
      let k = min (waiting_entries m) 1 in
      rw (drop_listener-notified e id w tag v g) (
        sym (mark-min 1 k tag m refl),
        ap (λ ws. e.woken ++ ws) (sym (mark_wakers-min 1 k m refl)),
        omega (
          arith,
          v.counted,
          waiting-add-notified e.listeners,
          (consumed-Inv e id w tag v g).counted,
          waiting-add-notified m,
          length-remove id e.listeners _ g,
          notified_pos id e.listeners _ g refl,
        ),
        omega (arith, length-mark k tag m, length-remove id e.listeners _ g),
      )

  -- `is_terminated` holds of a registered listener exactly while its value waits to be taken, and the
  -- poll that takes the value makes it false again.
  pub is_terminated_before_ready :
      (e e' : Inner T) (id : ℕ) (cx : Waker) (tag : T)
      → poll e id cx ≡ some (e', ready tag)
      → (is_terminated e id ≡ true) × (is_terminated e' id ≡ false)
  unfolding poll is_terminated
  is_terminated_before_ready e e' id cx tag h = elim (Option-cases (get id e.listeners)) [
    | inl g ↦ ground arith
    | inr (entry, g) ↦
        ground
          (arith, get-set_value id id (record entry { value = none }) e.listeners g, ==-self id)
  ]
