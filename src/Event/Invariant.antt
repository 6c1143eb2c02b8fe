-- ===== src/Event/Invariant.antt =====
-- The well-formedness of an event's `Inner` (src/event.rs), and closed forms of its operations.
use eneste_rs.Prelude.{
  ℕ, suc, ◌+◌, ◌-◌, ◌≤◌, ◌<◌, ◌≡◌, refl, [], ◌∷◌, ◌++◌, append-nil, Option, none, some, arith,
  if◌then◌else◌, length, length-append, min, usize_mod, usize_add_lem, usize_sub_lem,
}
use eneste_rs.Event.Map.{get, remove, Ordered, insert-last, Ordered-last}
use eneste_rs.Event.{
  ListenerEntry, Inner, Notification, Waker, listen, notify_count, notify_inner, notify_additional,
  notify, drop_listener,
}
use eneste_rs.Event.Sweep.{
  notified_entries, waiting_entries, waiting-add-notified, mark, mark_wakers, entries-notify_loop,
  count-notify_loop, wakers-notify_loop, notified-mark, length-mark, mark-Ordered, mark-min,
  mark_wakers-min, mark-zero, mark_wakers-zero,
}
use eneste_rs.Event.Counts.{notified-append, notified_pos, hand_on-mark}

module _ {T : Type 0} where
  -- Ids rise along the map and stay below `next_id`; `notified` counts the notified entries.
  pub record Inv (e : Inner T) : Type 0 where
    pub ordered : Ordered 0 e.listeners e.next_id
    pub counted : e.notified ≡ notified_entries e.listeners
    pub few : length e.listeners ≤ e.next_id
    pub small : e.next_id < usize_mod

  abbrev pub fresh_entry : ListenerEntry T
  fresh_entry = record { waker = none; value = none }

  abbrev pub listened : Inner T → Inner T
  listened e = record e {
    listeners = e.listeners ++ (e.next_id, fresh_entry) ∷ [];
    next_id = e.next_id + 1;
  }

  pub listen_lem :
      (e : Inner T) → Inv e → e.next_id + 1 < usize_mod → listen e ≡ (listened e, e.next_id)
  unfolding listen
  listen_lem e v h =
      rw (usize_add_lem e.next_id 1 h, insert-last 0 e.listeners e.next_id fresh_entry v.ordered)
        refl

  pub listened-Inv : (e : Inner T) → Inv e → e.next_id + 1 < usize_mod → Inv (listened e)
  listened-Inv e v h =
      let o = Ordered-last 0 e.listeners e.next_id fresh_entry v.ordered in
      let s : suc e.next_id ≡ e.next_id + 1 = omega arith in
      record {
        ordered = rw s at o;
        counted = omega (arith, v.counted, notified-append e.listeners e.next_id fresh_entry);
        few = omega (arith, v.few, length-append e.listeners ((e.next_id, fresh_entry) ∷ []));
        small = h;
      }

  -- How many listeners a notification reaches: an additional one counts the waiting listeners only,
  -- a plain one counts those that are notified already, too.
  abbrev pub newly : Inner T → Notification T → ℕ
  newly e n =
      min (waiting_entries e.listeners) (if n.is_additional then n.count else n.count - e.notified)

  abbrev pub notified_first : Inner T → ℕ → T → Inner T
  notified_first e k tag = record e {
    listeners = mark k tag e.listeners;
    notified = e.notified + k;
    woken = e.woken ++ mark_wakers k e.listeners;
  }

  notify_count_lem :
      (e : Inner T) (c k : ℕ) (tag : T)
      → Inv e
      → k ≡ min (waiting_entries e.listeners) c
      → notify_count e c tag ≡ notified_first e k tag
  unfolding notify_count
  notify_count_lem e c k tag v h = ground (
    arith,
    v.few,
    v.small,
    v.counted,
    h,
    waiting-add-notified e.listeners,
    entries-notify_loop c tag 0 c e.listeners (omega arith),
    count-notify_loop c tag 0 e.listeners,
    wakers-notify_loop c tag 0 c e.listeners (omega arith),
    mark-min c k tag e.listeners h,
    mark_wakers-min c k e.listeners h,
    usize_add_lem e.notified k,
  )

  pub notify_lem :
      (e : Inner T) (n : Notification T)
      → Inv e
      → n.count < usize_mod
      → notify e n ≡ notified_first e (newly e n) n.tag
  unfolding notify notify_inner notify_additional
  notify_lem e n v h = ground (
    arith,
    v.few,
    v.small,
    v.counted,
    waiting-add-notified e.listeners,
    notify_count_lem e (length e.listeners) (newly e n) n.tag v,
    notify_count_lem e (n.count - e.notified) (newly e n) n.tag v,
    notify_count_lem e (min n.count (length e.listeners)) (newly e n) n.tag v,
  )

  pub notified_first-Inv :
      (e : Inner T) (k : ℕ) (tag : T)
      → Inv e
      → k ≤ waiting_entries e.listeners
      → Inv (notified_first e k tag)
  notified_first-Inv e k tag v h = record {
    ordered = mark-Ordered k tag 0 e.listeners e.next_id v.ordered;
    counted = omega (arith, v.counted, notified-mark k tag e.listeners);
    few = omega (arith, v.few, length-mark k tag e.listeners);
    small = v.small;
  }

  pub notify-Inv :
      (e : Inner T) (n : Notification T) → Inv e → n.count < usize_mod → Inv (notify e n)
  notify-Inv e n v h =
      rw (notify_lem e n v h) (notified_first-Inv e (newly e n) n.tag v (omega arith))

  -- `EventListener::drop` of a listener without a value, and of one with a value to hand on.
  abbrev pub removed : Inner T → ℕ → Inner T
  removed e id = record e { listeners = remove id e.listeners }

  abbrev pub handed_on : Inner T → ℕ → T → Inner T
  handed_on e id tag =
      let left = record (removed e id) { notified = e.notified - 1 } in
      notified_first left (min (waiting_entries left.listeners) 1) tag

  pub drop_listener-waiting :
      (e : Inner T) (id : ℕ) (w : Option Waker)
      → get id e.listeners ≡ some (record { waker = w; value = none })
      → drop_listener e id ≡ removed e id
  unfolding drop_listener
  drop_listener-waiting e id w g = rw (g, drop_listener) refl

  pub drop_listener-notified :
      (e : Inner T) (id : ℕ) (w : Option Waker) (tag : T)
      → Inv e
      → get id e.listeners ≡ some (record { waker = w; value = some tag })
      → drop_listener e id ≡ handed_on e id tag
  unfolding drop_listener
  drop_listener-notified e id w tag v g =
      let m = remove id e.listeners in
      ground (
        arith,
        g,
        v.few,
        v.small,
        v.counted,
        notified_pos id e.listeners _ g refl,
        waiting-add-notified e.listeners,
        hand_on-mark tag m,
        mark-min 1 0 tag m,
        mark_wakers-min 1 0 m,
        mark-zero tag m,
        mark_wakers-zero m,
        append-nil e.woken,
        usize_sub_lem e.notified 1,
        usize_add_lem (e.notified - 1) 1,
      )
