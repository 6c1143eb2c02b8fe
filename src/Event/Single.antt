-- ===== src/Event/Single.antt =====
-- An event of src/event.rs with one listener at most, as the wait group and the receiver of a channel
-- use it.
use eneste_rs.Prelude.{
  ℕ, ◌≤◌, ◌<◌, ◌≡◌, refl, [], ◌∷◌, ◌++◌, none, some, arith, ==-self, inl, inr, usize_mod,
}
use eneste_rs.Event.Map.{get, remove, set_value}
use eneste_rs.Event.{ListenerEntry, Inner, Waker, notify, usize, drop_listener}
use eneste_rs.Event.Sweep.{mark, mark_wakers, waiting_entries, mark-zero}
use eneste_rs.Event.Invariant.{
  Inv, notify_lem, newly, drop_listener-waiting, drop_listener-notified,
}
use eneste_rs.Event.Listener.{waiting_entry, notified_entry, entry_cases, consumed, polled}

get-one : {A : Type 0} (id : ℕ) (a : A) → get id ((id, a) ∷ []) ≡ some a
unfolding get
get-one id a = rw (==-self id) refl

module _ (e : Inner (Unit {0})) where
  pub get-alone :
      (id : ℕ) (a : ListenerEntry (Unit {0}))
      → e.listeners ≡ (id, a) ∷ []
      → get id e.listeners ≡ some a
  get-alone id a q = rw q (get-one id a)

  pub polled-alone :
      (id : ℕ) (a : ListenerEntry (Unit {0})) (cx : Waker)
      → e.listeners ≡ (id, a) ∷ []
      → (polled e id cx).listeners ≡ (id, waiting_entry (some cx)) ∷ []
  unfolding set_value
  polled-alone id a cx q = rw (q, ==-self id) refl

  pub consumed-alone :
      (id : ℕ) (a : ListenerEntry (Unit {0}))
      → e.listeners ≡ (id, a) ∷ []
      → (consumed e id).listeners ≡ []
  unfolding remove
  consumed-alone id a q = rw (q, ==-self id) refl

  module _ (n : ℕ) (v : Inv e) (pos : 1 ≤ n) (lt : n < usize_mod) where
    -- A notification of a listener that sleeps wakes it.
    pub notify-asleep :
        (id : ℕ) (cx : Waker)
        → e.listeners ≡ (id, waiting_entry (some cx)) ∷ []
        → ((notify e (usize n)).listeners ≡ (id, notified_entry none tt) ∷ [])
          × ((notify e (usize n)).woken ≡ e.woken ++ cx ∷ [])
    unfolding usize mark mark_wakers
    notify-asleep id cx q =
        let one : newly e (usize n) ≡ 1 = ground (arith, q, v.counted) in
        rw (notify_lem e (usize n) v lt, one, q) (refl, refl)

    -- Without a listener that sleeps it changes no listener.
    pub notify-others :
        waiting_entries e.listeners ≡ 0 → (notify e (usize n)).listeners ≡ e.listeners
    unfolding usize
    notify-others q =
        let none_new : newly e (usize n) ≡ 0 = ground (arith, q) in
        rw (notify_lem e (usize n) v lt, none_new) (mark-zero tt e.listeners)

    pub closed-notify : (notify e (usize n)).closed ≡ e.closed
    unfolding usize
    closed-notify = rw (notify_lem e (usize n) v lt) refl

  pub dropped-alone :
      (id : ℕ) (a : ListenerEntry (Unit {0}))
      → Inv e
      → e.listeners ≡ (id, a) ∷ []
      → ((drop_listener e id).listeners ≡ []) × ((drop_listener e id).closed ≡ e.closed)
  unfolding mark
  dropped-alone id a v q =
      let g = get-alone id a q in
      elim (entry_cases e id g) [
        | inl (w, g') ↦ rw (drop_listener-waiting e id w g') (consumed-alone id a q, refl)
        | inr (w, tag, g') ↦
            rw (drop_listener-notified e id w tag v g', consumed-alone id a q) (refl, refl)
      ]
