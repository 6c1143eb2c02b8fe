-- ===== src/Emitter/Handling.antt =====
-- What the `Listener` future of src/emitter.rs hands to its closure, for any stream.
use eneste_rs.Prelude.{
  ℕ, zero, suc, ◌+◌, ◌<◌, ◌≡◌, refl, Bool, true, false, not, ◌||◌, List, [], ◌∷◌, Option, none,
  some, arith, if◌then◌else◌, length, Bool-cases, inl, inr,
}
use eneste_rs.Event.{Poll, ready, pending, Waker}
use eneste_rs.Emitter.{Listener, listener_poll}

-- Handing a list to a closure until it says `false`; `true` if it never does.
unfoldable pub until : {M T : Type 0} → (M → T → M × Bool) → M → List T → M × Bool
until call m [] = (m, true)
until call m (x ∷ xs) =
    let (k, more) = call m x in let rest = until call k xs in if more then rest else (k, false)

module _ {S T : Type 0} (poll_stream : S → Waker → S × Poll (Option T)) (cx : Waker) where
  -- Polled again and again, the stream yields these items, and is then pending, or at its end.
  pub data Yields : S → List T → Bool → Type 0 where
    idles : {s k : S} → poll_stream s cx ≡ (k, pending) → Yields s [] false
    stops : {s k : S} → poll_stream s cx ≡ (k, ready none) → Yields s [] true
    yields :
        {s k : S} {x : T} {xs : List T} {end : Bool}
        → poll_stream s cx ≡ (k, ready (some x))
        → Yields k xs end
        → Yields s (x ∷ xs) end

  module _ {M : Type 0} (call : M → T → M × Bool) where
    abbrev pub answer : Bool → Poll (Unit {0})
    answer true = ready tt
    answer false = pending

    -- One poll of a `Listener` hands the items that its stream has to the closure, in their order, up to
    -- the first at which the closure says `false`. It is ready exactly if the closure said so or the
    -- stream ended, and then it is finished. As much fuel as there are items, and two rounds, is enough.
    pub listener_poll_lem :
        (fuel : ℕ) (s : S) (m : M) (xs : List T) (end : Bool)
        → Yields s xs end
        → length xs + 1 < fuel
        → (l : Listener S M) × (listener_poll poll_stream call fuel
              (record { stream = s; map = m; finished = false })
              cx
            ≡ some (l, answer (not (until call m xs).1 || end)))
          × (l.map ≡ (until call m xs).0)
          × (l.finished ≡ (not (until call m xs).1 || end))
    unfolding listener_poll until
    listener_poll_lem zero s m xs end y h = absurd (omega arith)
    listener_poll_lem (suc zero) s m xs end y h = absurd (omega arith)
    listener_poll_lem (suc (suc fuel)) s m [] end (idles {k = k} p) h =
        (record { stream = k; map = m; finished = false }, ground (arith, p), refl, refl)
    listener_poll_lem (suc (suc fuel)) s m [] end (stops {k = k} p) h =
        (record { stream = k; map = m; finished = true }, ground (arith, p), refl, refl)
    listener_poll_lem (suc (suc fuel)) s m (x ∷ xs) end (yields {k = k} p y) h =
        elim (Bool-cases (call m x).1) [
          | inl q ↦
              let ih = listener_poll_lem (suc fuel) k (call m x).0 xs end y (ground arith) in
              (ih.0, ground (arith, p, q, ih), ground (arith, q, ih), ground (arith, q, ih))
          | inr q ↦ (
            record { stream = k; map = (call m x).0; finished = true },
            ground (arith, p, q),
            ground (arith, q),
            ground (arith, q),
          )
        ]

    -- A listener that is ready stays so, and never calls the closure or polls its stream again.
    pub listener_poll-finished :
        (fuel : ℕ) (l : Listener S M)
        → l.finished ≡ true
        → listener_poll poll_stream call (suc fuel) l cx ≡ some (l, ready tt)
    unfolding listener_poll
    listener_poll-finished fuel l h = rw (listener_poll, h) refl
