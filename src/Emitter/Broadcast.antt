-- ===== src/Emitter/Broadcast.antt =====
-- `Emitter::emit` (src/emitter.rs) reaches every subscriber.
use eneste_rs.Prelude.{
  ℕ, suc, ◌+◌, ◌-◌, ◌≤◌, ◌<◌, ◌≡◌, ◌∙◌, ap, false, [], ◌∷◌, none, some, arith, length, usize_max,
  usize_mod,
}
use eneste_rs.Event.Map.{BTreeMap, get}
use eneste_rs.Event.{ListenerEntry, Inner, ready, Waker, usize, with_value, entry_is_notified}
use eneste_rs.Event.Sweep.{waiting_entries, waiting-add-notified, length-mark}
use eneste_rs.Event.Invariant.{Inv, notify-Inv, notify_lem}
use eneste_rs.Event.Listener.{consumed}
use eneste_rs.Event.Notify.{notify_count_exact, notify_keeps}
use eneste_rs.Event.Stream.{listening, next, event_alive}
use eneste_rs.Event.Stream.Loop.{poll_next-eq-poll_once, poll_once}
use eneste_rs.Emitter.{emit, emitter_poll_next}

module _ {T : Type 0} where
  waiting_pos :
      (i : ℕ) (m : BTreeMap (ListenerEntry T)) (a : ListenerEntry T)
      → get i m ≡ some a
      → entry_is_notified a ≡ false
      → 1 ≤ waiting_entries m
  unfolding get
  waiting_pos i [] a g w = cc
  waiting_pos i ((j, x) ∷ m) a g w = ground (arith, waiting_pos i m a)

  pub nobody_waits :
      (e : Inner T) (value : T) → Inv e → waiting_entries (emit e value).listeners ≡ 0
  unfolding emit usize with_value
  nobody_waits e value v =
      let n = with_value (usize usize_max) value in
      let c = notify_count_exact e n v (omega arith) in
      let w = notify-Inv e n v (omega arith) in
      omega (
        arith,
        v.few,
        v.small,
        w.counted,
        c.0,
        ap length c.1,
        length-mark ((emit e value).notified - e.notified) value e.listeners,
        waiting-add-notified (emit e value).listeners,
      )

  -- Every registered listener has a value after `emit`: its own, or the emitted one.
  abbrev pub served : ListenerEntry T → T → ListenerEntry T
  served a value = elim a.value [
    | none ↦ record { waker = none; value = some value }
    | some v ↦ record { waker = a.waker; value = some v }
  ]

  pub get-emit :
      (e : Inner T) (value : T) (id : ℕ) (a : ListenerEntry T)
      → Inv e
      → get id e.listeners ≡ some a
      → get id (emit e value).listeners ≡ some (served a value)
  unfolding emit usize with_value
  get-emit e value id a v g =
      let n = with_value (usize usize_max) value in
      ground (
        arith,
        notify_keeps e n id a v (omega arith) g,
        nobody_waits e value v,
        waiting_pos id (emit e value).listeners a,
      )

  -- After `emit`, every subscriber that had no value yet gets the emitted one at its next poll, whatever
  -- its place; one that had not taken an earlier value gets that one.
  pub emit_reaches_everyone :
      (e : Inner T) (value : T) (id : ℕ) (a : ListenerEntry T) (fuel : ℕ) (cx : Waker)
      → Inv e
      → e.next_id + 1 < usize_mod
      → get id e.listeners ≡ some a
      → emitter_poll_next (suc (suc (suc (suc fuel)))) (emit e value) (listening id) cx
        ≡ some (
          consumed (emit e value) id,
          next,
          ready (some (elim a.value [ none ↦ value | some v ↦ v ])),
        )
  unfolding emitter_poll_next emit usize with_value poll_once
  emit_reaches_everyone e value id a fuel cx v h g =
      let n = with_value (usize usize_max) value in
      let k = emit e value in
      let w = notify-Inv e n v (omega arith) in
      let q = get-emit e value id a v g in
      poll_next-eq-poll_once event_alive fuel k (listening id) cx w
        (rw (notify_lem e n v (omega arith)) h) (served a value, q)
      ∙ ground (arith, q)
