-- ===== src/WaitGroup/Answer.antt =====
-- What a poll of the future of `wait` (src/waitgroup.rs) comes to.
use eneste_rs.Prelude.{
  ℕ, suc, ◌+◌, ◌≤◌, ◌<◌, ◌≡◌, ◌≢◌, ◌⊎◌, refl, false, [], ◌∷◌, ◌++◌, Option, none, some, arith, ◌==◌,
  if◌then◌else◌, usize_mod, ap, inl, inr, Bool-cases,
}
use eneste_rs.Event.{Poll, ready, pending, Waker}
use eneste_rs.Event.Invariant.{Inv, listen_lem, listened, listened-Inv}
use eneste_rs.Event.Listener.{
  waiting_entry, notified_entry, consumed, consumed-Inv, polled, polled-Inv, parked, parked-Inv,
}
use eneste_rs.Event.Single.{get-alone, polled-alone, consumed-alone}
use eneste_rs.Event.Stream.{listening, next, done, stream, drop_stream, state_alive}
use eneste_rs.Event.Stream.Loop.{poll_next-eq-poll_once, poll_once}
use eneste_rs.WaitGroup.{
  WaitGroup, WaitState, start, looping, finished, is_empty, leave, wait_loop, wait_poll,
}

-- The waiter has no listener, or one that sleeps while there are tickets, or one that was notified.
unfoldable pub Waits : WaitGroup → WaitState → Type 0
Waits g start = g.event.listeners ≡ []
Waits g finished = g.event.listeners ≡ []
Waits g (looping (listening id)) =
    ((cx : Waker) × (g.event.listeners ≡ (id, waiting_entry (some cx)) ∷ []) × (1 ≤ g.tickets))
    ⊎ (g.event.listeners ≡ (id, notified_entry none tt) ∷ [])
Waits g (looping next) = ⊥
Waits g (looping done) = ⊥

pub record Good (g : WaitGroup) (w : WaitState) : Type 0 where
  pub event : Inv g.event
  pub living : g.event.closed ≡ false
  pub waits : Waits g w

asleep_loop :
    (fuel id : ℕ) (g : WaitGroup) (w : Option Waker) (cx : Waker)
    → Inv g.event
    → g.event.closed ≡ false
    → g.event.next_id + 1 < usize_mod
    → g.event.listeners ≡ (id, waiting_entry w) ∷ []
    → wait_loop (suc fuel) g (listening id) cx
      ≡ some (record g { event = polled g.event id cx }, looping (listening id), pending)
unfolding wait_loop poll_once
asleep_loop fuel id g w cx v c h q =
    let a = get-alone g.event id (waiting_entry w) q in
    let p = poll_next-eq-poll_once state_alive 0 g.event (listening id) cx v h (_, a) in
    ground (arith, p, a, c)

next_loop :
    (fuel : ℕ) (g : WaitGroup) (cx : Waker)
    → Inv g.event
    → g.event.closed ≡ false
    → g.event.next_id + 1 < usize_mod
    → wait_loop (suc fuel) g next cx
      ≡ some (record g { event = parked g.event cx }, looping (listening g.event.next_id), pending)
unfolding wait_loop poll_once state_alive
next_loop fuel g cx v c h =
    let p = poll_next-eq-poll_once state_alive 0 g.event next cx v h tt in ground (arith, p, c)

notified_loop :
    (fuel id : ℕ) (g : WaitGroup) (cx : Waker)
    → Inv g.event
    → g.event.next_id + 1 < usize_mod
    → g.event.listeners ≡ (id, notified_entry none tt) ∷ []
    → wait_loop (suc fuel) g (listening id) cx ≡ (
        if g.tickets == 0
        then some (record g { event = consumed g.event id }, finished, ready tt)
        else wait_loop fuel (record g { event = consumed g.event id }) next cx)
unfolding wait_loop poll_once leave drop_stream
notified_loop fuel id g cx v h q =
    let a = get-alone g.event id (notified_entry none tt) q in
    let p = poll_next-eq-poll_once state_alive 0 g.event (listening id) cx v h (_, a) in
    ground (arith, p, a)

-- What a poll of the future comes to: it is ready exactly if no ticket is out.
abbrev pub Answers : WaitGroup → Option (WaitGroup × WaitState × Poll (Unit {0})) → Type 0
Answers g result =
    (k : WaitGroup) × (w : WaitState) × (result
      ≡ some (k, w, if g.tickets == 0 then ready tt else pending))
    × Good k w
    × (k.tickets ≡ g.tickets)

asleep-Answers :
    (fuel id : ℕ) (g : WaitGroup) (a : Option Waker) (cx : Waker)
    → Inv g.event
    → g.event.closed ≡ false
    → g.event.next_id + 1 < usize_mod
    → g.event.listeners ≡ (id, waiting_entry a) ∷ []
    → 1 ≤ g.tickets
    → Answers g (wait_loop (suc fuel) g (listening id) cx)
unfolding Waits
asleep-Answers fuel id g a cx v c h q t = (
  record g { event = polled g.event id cx },
  looping (listening id),
  ground (arith, asleep_loop fuel id g a cx v c h q),
  record {
    event = polled-Inv g.event id cx a v (get-alone g.event id (waiting_entry a) q);
    living = c;
    waits = inl (cx, polled-alone g.event id (waiting_entry a) cx q, t);
  },
  refl,
)

notified-Answers :
    (fuel id : ℕ) (g : WaitGroup) (cx : Waker)
    → Inv g.event
    → g.event.closed ≡ false
    → g.event.next_id + 1 < usize_mod
    → g.event.listeners ≡ (id, notified_entry none tt) ∷ []
    → Answers g (wait_loop (suc (suc fuel)) g (listening id) cx)
unfolding Waits
notified-Answers fuel id g cx v c h q =
    let k = record g { event = consumed g.event id } in
    let n = consumed-alone g.event id (notified_entry none tt) q in
    let vk = consumed-Inv g.event id none tt v (get-alone g.event id (notified_entry none tt) q) in
    let step = notified_loop (suc fuel) id g cx v h q in
    elim (Bool-cases (g.tickets == 0)) [
      | inl z ↦
          (k, finished, ground (arith, step, z), record { event = vk; living = c; waits = n }, refl)
      | inr z ↦ (
        record k { event = parked k.event cx },
        looping (listening g.event.next_id),
        ground (arith, step, z, next_loop fuel k cx vk c h),
        record {
          event = parked-Inv k.event cx vk h;
          living = c;
          waits =
              inl (
                cx,
                ap (λ m. m ++ (g.event.next_id, waiting_entry (some cx)) ∷ []) n,
                ground arith,
              );
        },
        refl,
      )
    ]

-- A poll of the future of `wait` always comes back, within two rounds of its loop; it is ready exactly
-- if no ticket is out.
pub wait_poll-Answers :
    (fuel : ℕ) (g : WaitGroup) (w : WaitState) (cx : Waker)
    → Good g w
    → w ≢ finished
    → g.event.next_id + 2 < usize_mod
    → Answers g (wait_poll (suc (suc fuel)) g w cx)
unfolding wait_poll Waits is_empty stream
wait_poll-Answers fuel g start cx d ne h = elim (Bool-cases (g.tickets == 0)) [
  | inl z ↦ (
    g,
    finished,
    ground (arith, z),
    record { event = d.event; living = d.living; waits = d.waits },
    refl,
  )
  | inr z ↦
      let k = record g { event = listened g.event } in
      let r =
        asleep-Answers (suc fuel) g.event.next_id k none cx
          (listened-Inv g.event d.event (omega arith)) d.living (omega arith)
          (ap (λ m. m ++ (g.event.next_id, waiting_entry none) ∷ []) d.waits) (ground arith) in
      (r.0, r.1, ground (arith, z, r.2, listen_lem g.event d.event), r.3, r.4)
]
wait_poll-Answers fuel g (looping (listening id)) cx d ne h = elim d.waits [
  | inl (a, q, t) ↦ asleep-Answers (suc fuel) id g (some a) cx d.event d.living (omega arith) q t
  | inr q ↦ notified-Answers fuel id g cx d.event d.living (omega arith) q
]
wait_poll-Answers fuel g (looping next) cx d ne h = absurd d.waits
wait_poll-Answers fuel g (looping done) cx d ne h = absurd d.waits
wait_poll-Answers fuel g finished cx d ne h = absurd (ne refl)
