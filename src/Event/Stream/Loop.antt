-- ===== src/Event/Stream/Loop.antt =====
-- The loop of `poll_next` (src/event.rs, src/emitter.rs) without its rounds.
use eneste_rs.Prelude.{
  ℕ, suc, ◌+◌, ◌<◌, ◌≡◌, ◌∙◌, refl, Bool, [], ◌∷◌, ◌++◌, Option, none, some, arith, if◌then◌else◌,
  usize_mod, inl, inr, ==-self,
}
use eneste_rs.Event.Map.{BTreeMap, get, remove, get_above, get-append, get-set_value}
use eneste_rs.Event.{ListenerEntry, Inner, Poll, ready, pending, Waker, is_closed, drop_listener}
use eneste_rs.Event.Counts.{remove-set_value}
use eneste_rs.Event.Invariant.{Inv, listen_lem, removed, drop_listener-waiting}
use eneste_rs.Event.Listener.{
  waiting_entry, entry_cases, consumed, polled, parked, poll-waiting, poll-notified, poll-listened,
  drop_listener-taken,
}
use eneste_rs.Event.Stream.{StreamState, listening, next, done, poll_next}

module _ {T : Type 0} where
  -- The stream's listener, if it has one, is registered.
  abbrev pub Attached : Inner T → StreamState → Type 0
  Attached e (listening id) = (entry : ListenerEntry T) × (get id e.listeners ≡ some entry)
  Attached e next = Unit
  Attached e done = Unit

  -- A poll of the stream in one step.
  unfoldable pub poll_once :
      (Inner T → Bool) → Inner T → StreamState → Waker → Inner T × StreamState × Poll (Option T)
  poll_once alive e (listening id) cx = elim (get id e.listeners) [
    | none ↦ (e, listening id, pending)
    | some entry ↦ elim entry.value [
      | some tag ↦ (consumed e id, next, ready (some tag))
      | none ↦
          if e.closed
          then (removed e id, done, ready none)
          else (polled e id cx, listening id, pending)
    ]
  ]
  poll_once alive e next cx =
      if alive e
      then if e.closed
        then (record e { next_id = e.next_id + 1 }, done, ready none)
        else (parked e cx, listening e.next_id, pending)
      else (e, done, ready none)
  poll_once alive e done cx = (e, done, ready none)

  remove-last :
      (id : ℕ) (m : BTreeMap (ListenerEntry T)) (w : ListenerEntry T)
      → get id m ≡ none
      → remove id (m ++ (id, w) ∷ []) ≡ m
  unfolding get remove
  remove-last id [] w g = rw (==-self id) refl
  remove-last id ((j, u) ∷ m) w g = ground (arith, remove-last id m w)

  polled-drop :
      (e : Inner T) (id : ℕ) (cx : Waker) (w : Option Waker)
      → get id e.listeners ≡ some (waiting_entry w)
      → drop_listener (polled e id cx) id ≡ removed e id
  polled-drop e id cx w g =
      drop_listener-waiting (polled e id cx) id (some cx)
        (get-set_value id id (waiting_entry (some cx)) e.listeners g ∙ rw (==-self id) refl)
      ∙ rw (remove-set_value id (waiting_entry (some cx)) e.listeners) refl

  parked-drop :
      (e : Inner T) (cx : Waker)
      → Inv e
      → drop_listener (parked e cx) e.next_id ≡ record e { next_id = e.next_id + 1 }
  parked-drop e cx v =
      let w : ListenerEntry T = waiting_entry (some cx) in
      let g = get_above 0 e.listeners e.next_id e.next_id v.ordered (omega arith) in
      drop_listener-waiting (parked e cx) e.next_id (some cx)
        (get-append e.next_id e.listeners e.next_id w g ∙ rw (==-self e.next_id) refl)
      ∙ rw (remove-last e.next_id e.listeners w g) refl

  poll_next-listening :
      (alive : Inner T → Bool) (fuel : ℕ) (e : Inner T) (id : ℕ) (cx : Waker)
      → Attached e (listening id)
      → poll_next alive (suc (suc fuel)) e (listening id) cx
        ≡ some (poll_once alive e (listening id) cx)
  unfolding poll_next poll_once is_closed
  poll_next-listening alive fuel e id cx (entry, g) = elim (entry_cases e id g) [
    | inl (w, g') ↦ ground (arith, poll-waiting e id cx w g', polled-drop e id cx w g', g')
    | inr (w, tag, g') ↦
        ground (arith, poll-notified e id cx w tag g', drop_listener-taken e id w tag g', g')
  ]

  -- Four rounds are enough: on a well-formed event a poll of an attached stream never panics and never
  -- runs on. It yields the value of its listener if there is one, ends once the event is closed, and
  -- registers a new listener after each value.
  pub poll_next-eq-poll_once :
      (alive : Inner T → Bool) (fuel : ℕ) (e : Inner T) (s : StreamState) (cx : Waker)
      → Inv e
      → e.next_id + 1 < usize_mod
      → Attached e s
      → poll_next alive (suc (suc (suc (suc fuel)))) e s cx ≡ some (poll_once alive e s cx)
  unfolding poll_next poll_once is_closed
  poll_next-eq-poll_once alive fuel e (listening id) cx v h a =
      poll_next-listening alive (suc (suc fuel)) e id cx a
  poll_next-eq-poll_once alive fuel e done cx v h a = refl
  poll_next-eq-poll_once alive fuel e next cx v h a =
      ground (arith, listen_lem e v h, poll-listened e cx v, parked-drop e cx v)
