-- ===== src/Mpsc/Blocked.antt =====
-- Which receives wake a blocked sender of a bounded channel (src/channel/mpsc.rs).
use eneste_rs.Prelude.{
  ℕ, zero, suc, ◌<◌, ◌≤◌, ◌≡◌, refl, Bool-cases, inl, inr, List, [], ◌∷◌, Option, none, some, arith,
  length, ◌==◌, if◌then◌else◌,
}
use eneste_rs.Event.{ready, pending, Waker, notify, usize}
use eneste_rs.Mpsc.{Channel, idle, recv_poll}

module _ {T : Type 0} where
  -- `k` receives that each yield a value.
  pub drain : ℕ → Channel T → Waker → Option (List T × Channel T)
  drain zero c cx = some ([], c)
  drain (suc k) c cx = elim (recv_poll 1 c idle cx) [
    | none ↦ none
    | some (c', st, pending) ↦ none
    | some (c', st, ready none) ↦ none
    | some (c', st, ready (some v)) ↦ elim (drain k c' cx) [
      | none ↦ none
      | some (vs, d) ↦ some (v ∷ vs, d)
    ]
  ]

  recv_poll-cons :
      (fuel : ℕ) (c : Channel T) (v : T) (rest : List T) (cx : Waker)
      → c.queue ≡ v ∷ rest
      → recv_poll (suc fuel) c idle cx
        ≡ some (
          record c {
            queue = rest;
            sender_event =
                if length (v ∷ rest) == c.max_queue_size
                then notify c.sender_event (usize 1)
                else c.sender_event;
          },
          idle,
          ready (some v),
        )
  unfolding recv_poll
  recv_poll-cons fuel c v rest cx q = ground (arith, q)

  drain-below :
      (q : List T) (c : Channel T) (cx : Waker)
      → c.queue ≡ q
      → length q < c.max_queue_size
      → drain (length q) c cx ≡ some (q, record c { queue = [] })
  unfolding drain
  drain-below [] c cx e h = ground (arith, e)
  drain-below (v ∷ rest) c cx e h =
      ground
        (arith, recv_poll-cons 0 c v rest cx e, drain-below rest (record c { queue = rest }) cx)

  drain-full :
      (q : List T) (c : Channel T) (cx : Waker)
      → c.queue ≡ q
      → 0 < length q
      → length q ≡ c.max_queue_size
      → drain (length q) c cx
        ≡ some (q, record c { queue = []; sender_event = notify c.sender_event (usize 1) })
  unfolding drain
  drain-full [] c cx e p h = absurd (omega arith)
  drain-full (v ∷ rest) c cx e p h = ground (
    arith,
    recv_poll-cons 0 c v rest cx e,
    drain-below rest (record c { queue = rest; sender_event = notify c.sender_event (usize 1) }) cx,
  )

  below_full_wakes_nobody :
      (c : Channel T) (cx : Waker)
      → length c.queue < c.max_queue_size
      → drain (length c.queue) c cx ≡ some (c.queue, record c { queue = [] })
  below_full_wakes_nobody c cx h = drain-below c.queue c cx refl h

  full_wakes_one :
      (c : Channel T) (cx : Waker)
      → 0 < length c.queue
      → length c.queue ≡ c.max_queue_size
      → drain (length c.queue) c cx
        ≡ some (c.queue, record c { queue = []; sender_event = notify c.sender_event (usize 1) })
  full_wakes_one c cx p h = drain-full c.queue c cx refl p h

  -- A channel of positive size hands all its values out, in their order. If its queue was full, the
  -- senders' event got one `notify(1)` in all, of the first receive. If not, the event was never touched:
  -- nobody is notified and nobody is woken, however many senders sleep on it and however much room there
  -- is at the end.
  pub drain_wakes_one :
      (c : Channel T) (cx : Waker)
      → 0 < c.max_queue_size
      → length c.queue ≤ c.max_queue_size
      → drain (length c.queue) c cx
        ≡ some (
          c.queue,
          record c {
            queue = [];
            sender_event =
                if length c.queue == c.max_queue_size
                then notify c.sender_event (usize 1)
                else c.sender_event;
          },
        )
  drain_wakes_one c cx p h = elim (Bool-cases (length c.queue == c.max_queue_size)) [
    | inl e ↦ rw e (full_wakes_one c cx (ground (arith, e, p)) (ground (arith, e)))
    | inr e ↦ rw e (below_full_wakes_nobody c cx (ground (arith, e, h)))
  ]
