-- ===== src/LockedSink/System.antt =====
-- A `LockedSink` (src/poll_lock.rs) that is used as the trait `Sink` asks for, while other tasks use the
-- mutex behind it.
use eneste_rs.Prelude.{
  ◌+◌, ◌<◌, ◌≡◌, ◌⊎◌, ◌∙◌, refl, sym, ap, Bool, true, false, List, [], ◌∷◌, ◌++◌, append-nil,
  Option, none, some, arith, inl, inr, subst, usize_mod, eq_of_some,
}
use eneste_rs.Event.{Poll, Waker, new_with}
use eneste_rs.Event.Invariant.{Inv}
use eneste_rs.Mutex
use eneste_rs.Mutex.{AsyncMutex}
use eneste_rs.PollLock
use eneste_rs.PollLock.Total.{Good, Registered}
use eneste_rs.LockedSink.{
  SinkResult, SinkOps, LockedSink, new, poll_ready, start_send, poll_flush, poll_close,
}
use eneste_rs.LockedSink.Order.{
  logged, slot_items, sink_items, is_done, Keeps, Returned, flush-Returned, close-Returned,
  ready-Returned,
}

-- The sink, the items that it accepted, and whether the last `poll_ready` allows to send one.
pub record History (S M : Type 0) : Type 0 where
  pub sink : LockedSink (S × List M) M
  pub accepted : List M
  pub may_send : Bool

-- The items that were handed to the inner sink.
abbrev pub delivered : {S M : Type 0} → LockedSink (S × List M) M → List M
delivered k = k.lock.value.value.1

abbrev pub with_mutex :
    {S M : Type 0} → LockedSink (S × List M) M → AsyncMutex (S × List M) → LockedSink (S × List M) M
with_mutex k m = record k { lock = record k.lock { value = m } }

module _ {S M E : Type 0} (ops : SinkOps S M E) where
  pub data Step (h : History S M) : History S M → Type 0 where
    polls_ready :
        (cx : Waker) {l : LockedSink (S × List M) M} {r : Poll (SinkResult E)}
        → h.sink.lock.value.event.next_id + 1 < usize_mod
        → poll_ready (logged ops) 2 h.sink cx ≡ some (l, r)
        → Step h (record h { sink = l; may_send = is_done r })
    sends :
        (m : M)
        → h.may_send ≡ true
        → Step h (record {
          sink = (start_send (logged ops) h.sink m).0;
          accepted = h.accepted ++ m ∷ [];
          may_send = false;
        })
    flushes :
        (cx : Waker) {l : LockedSink (S × List M) M} {r : Poll (SinkResult E)}
        → h.sink.lock.value.event.next_id + 1 < usize_mod
        → poll_flush (logged ops) h.sink cx ≡ some (l, r)
        → Step h (record h { sink = l })
    closes :
        (cx : Waker) {l : LockedSink (S × List M) M} {r : Poll (SinkResult E)}
        → h.sink.lock.value.event.next_id + 1 < usize_mod
        → poll_close (logged ops) h.sink cx ≡ some (l, r)
        → Step h (record h { sink = l })
    -- Other tasks lock and unlock the mutex, and use the inner sink; they leave the listener of this
    -- sink's future alone.
    others :
        (m : AsyncMutex (S × List M))
        → Inv m.event
        → Registered m.event h.sink.lock.state
        → m.value.1 ≡ delivered h.sink
        → Step h (record h { sink = with_mutex h.sink m })

  pub data Reach (s : S) : History S M → Type 0 where
    created : Reach s (record { sink = new (s, []); accepted = []; may_send = false })
    after : {h k : History S M} → Reach s h → Step h k → Reach s k

  record Sound (h : History S M) : Type 0 where
    good : Good h.sink.lock
    order : sink_items h.sink ≡ h.accepted
    free : h.may_send ≡ true → h.sink.slot ≡ none

  Returned-Sound :
      (h : History S M) (may_send : Bool)
      (result : Option (LockedSink (S × List M) M × Poll (SinkResult E)))
      {l : LockedSink (S × List M) M} {r : Poll (SinkResult E)}
      → Sound h
      → Returned ops h.sink result
      → result ≡ some (l, r)
      → (may_send ≡ h.may_send) ⊎ (may_send ≡ is_done r)
      → Sound (record h { sink = l; may_send = may_send })
  Returned-Sound h may_send result {l} {r} d a p e =
      let same = eq_of_some (sym a.2 ∙ p) in
      let g : Good l.lock = subst (λ x. Good x.0.lock) same a.3 in
      let k =
        subst (λ x. Keeps h.sink.slot (sink_items h.sink) (x.0.lock.value.value, x.0.slot, x.1))
          same a.4 in
      record { good = g; order = k.0 ∙ d.order; free = λ q. ground (arith, k.1, e, d.free) }

  Step-Sound : {h k : History S M} → Step h k → Sound h → Sound k
  unfolding start_send
  Step-Sound {h} (polls_ready cx {r = r} lt p) d =
      Returned-Sound h (is_done r) _ d (ready-Returned ops h.sink cx d.good lt 0) p (inr refl)
  Step-Sound {h} (sends m a) d =
      let n = d.free a in
      record {
        good = d.good;
        order = ground (arith, d.order, n, append-nil (delivered h.sink));
        free = λ q. ground (arith, q);
      }
  Step-Sound {h} (flushes cx lt p) d =
      Returned-Sound h h.may_send _ d (flush-Returned ops h.sink cx d.good lt) p (inl refl)
  Step-Sound {h} (closes cx lt p) d =
      Returned-Sound h h.may_send _ d (close-Returned ops h.sink cx d.good lt) p (inl refl)
  Step-Sound {h} (others m v g e) d = record {
    good = record { event = v; attached = g };
    order = ap (λ xs. xs ++ slot_items h.sink.slot) e ∙ d.order;
    free = d.free;
  }

  Reach-Sound : {s : S} {h : History S M} → Reach s h → Sound h
  unfolding new PollLock.new Mutex.new new_with
  Reach-Sound created = record {
    good = record {
      event = record {
        ordered = omega arith;
        counted = refl;
        few = omega arith;
        small = omega arith;
      };
      attached = tt;
    };
    order = refl;
    free = λ q. refl;
  }
  Reach-Sound (after r st) = Step-Sound st (Reach-Sound r)

  -- A locked sink that is used as `Sink` asks for refines a queue: the items that it handed to the inner
  -- sink, followed by the one in the slot, are those that it accepted, each once and in their order,
  -- whatever the inner sink answers and whatever other tasks do with the mutex.
  pub delivers_in_order :
      {s : S} {h : History S M}
      → Reach s h
      → delivered h.sink ++ slot_items h.sink.slot ≡ h.accepted
  delivers_in_order r = (Reach-Sound r).order

  -- A method came back, and if its answer is ready without an error, every accepted item is delivered.
  abbrev pub Delivers :
      History S M → Option (LockedSink (S × List M) M × Poll (SinkResult E)) → Type 0
  Delivers h result =
      (l : LockedSink (S × List M) M) × (r : Poll (SinkResult E)) × (result ≡ some (l, r))
      × ((is_done r ≡ false) ⊎ (delivered l ≡ h.accepted))

  Returned-Delivers :
      (h : History S M) (result : Option (LockedSink (S × List M) M × Poll (SinkResult E)))
      → Sound h
      → Returned ops h.sink result
      → Delivers h result
  Returned-Delivers h result d a =
      (a.0, a.1, a.2, ground (arith, a.4, d.order, append-nil (delivered a.0)))

  -- After every history, with a listener id to spare, `poll_ready`, `poll_flush` and `poll_close` come
  -- back, the first within two rounds; if one of them is ready without an error, every accepted item has
  -- been handed to the inner sink.
  pub methods_deliver :
      {s : S} {h : History S M} (cx : Waker)
      → Reach s h
      → h.sink.lock.value.event.next_id + 1 < usize_mod
      → Delivers h (poll_ready (logged ops) 2 h.sink cx)
        × Delivers h (poll_flush (logged ops) h.sink cx)
        × Delivers h (poll_close (logged ops) h.sink cx)
  methods_deliver {s} {h} cx r lt =
      let d = Reach-Sound r in
      (
        Returned-Delivers h _ d (ready-Returned ops h.sink cx d.good lt 0),
        Returned-Delivers h _ d (flush-Returned ops h.sink cx d.good lt),
        Returned-Delivers h _ d (close-Returned ops h.sink cx d.good lt),
      )
