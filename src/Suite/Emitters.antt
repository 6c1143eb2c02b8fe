-- ===== src/Suite/Emitters.antt =====
-- The unit tests of src/emitter.rs: calls on one emitter, its streams, and the listeners on them, some of
-- them as tasks of the `TestSpawner` of src/test_util.rs.
pub mod Scripts
use Prim.Native.Nat.{◌*◌}
use eneste_rs.Prelude.{
  ℕ, Bool, true, false, List, [], ◌∷◌, ◌++◌, Option, none, some, ◌==◌, ltb, ◌≡◌, refl, ◌&&◌,
  usize_add, usize_sub, usize_max, if◌then◌else◌, update, length,
}
use eneste_rs.Event.{
  Inner, Poll, ready, pending, Waker, new_with, listen, notify, poll as event_poll, drop_listener,
  notify_inner, notify_count, notify_loop, hand_on, usize, with_value, drop_event, take_wakers,
  is_closed,
}
use eneste_rs.Event.Map.{get, insert, remove, set_value}
use eneste_rs.Event.Stream.{StreamState, done, poll_next, event_alive, drop_stream}
use eneste_rs.Emitter.{
  new, subscribe, emit, emitter_poll_next, Listener, listener_poll, subscribe_once_poll,
}
use eneste_rs.Emitter.Delivery.{stream_poll}
use eneste_rs.Suite.{run, bool_eq, list_eq, option_eq, poll_eq, all_pass}

-- `IterStream`, by what its iterator has left
unfoldable pub iter_poll_next : List ℕ → List ℕ × Poll (Option ℕ)
iter_poll_next [] = ([], ready none)
iter_poll_next (v ∷ rest) = (rest, ready (some v))

-- The streams of the tests
pub data Source : Type 0 where
  emitter : StreamState → Source
  iter : List ℕ → Source

unfoldable pub poll_source : Inner ℕ × Source → Waker → (Inner ℕ × Source) × Poll (Option ℕ)
poll_source (e, emitter st) cx =
    let ((k, left), r) = stream_poll (e, st) cx in ((k, emitter left), r)
poll_source (e, iter items) cx = let (left, r) = iter_poll_next items in ((e, iter left), r)

-- Streams and listeners are named by numbers. `logs` are the values that the closure of a listener has
-- seen. `spawns` is `listen` with the spawner, and `runs` polls every task of the spawner once.
pub data Act : Type 0 where
  emits : ℕ → Act
  subscribes : ℕ → Act
  iterates : ℕ → List ℕ → Act
  polls : ℕ → Waker → Poll (Option ℕ) → Act
  drops_stream : ℕ → Act
  drops_emitter : Act
  polls_once : ℕ → Waker → Option (Poll ℕ) → Act
  polls_listener : ℕ → Bool → Act
  spawns : ℕ → Act
  runs : Act
  has_pending : ℕ → Act
  logs : ℕ → List ℕ → Act
  woken : List Waker → Act

pub record Scene : Type 0 where
  event : Inner ℕ
  streams : ℕ → Source
  seen : ℕ → List ℕ
  finished : ℕ → Bool
  tasks : List ℕ

unfoldable pub is_ready : Poll (Unit {0}) → Bool
is_ready (ready u) = true
is_ready pending = false

-- The outcome of a poll of a `SubscribeOnce`; `none` is its panic.
unfoldable pub once_eq : Option (Poll ℕ) → Option (Poll ℕ) → Bool
once_eq = option_eq (poll_eq (λ a b. a == b))

-- The drop of a stream
unfoldable pub drop_source : ℕ → Scene → Scene
drop_source s x = elim (x.streams s) [
  | emitter st ↦ record x { event = drop_stream x.event st }
  | iter items ↦ x
]

-- The closure of each listener answers whether to go on; what it was called with is logged.
module _ (map : ℕ → ℕ → ℕ × Bool) where
  unfoldable pub call : ℕ → List ℕ → ℕ → List ℕ × Bool
  call k log v = let (seen, more) = map k v in (log ++ seen ∷ [], more)

  -- A poll of the listener `k` with the no-op waker, and whether it is ready. The fuel is enough for ten
  -- items.
  unfoldable pub poll_listener : ℕ → Scene → Scene × Option Bool
  poll_listener k x =
      let l : Listener (Inner ℕ × Source) (List ℕ) = record {
        stream = (x.event, x.streams k);
        map = x.seen k;
        finished = x.finished k;
      } in
      elim (listener_poll poll_source (call k) 12 l 0) [
        | none ↦ (x, none)
        | some (after, r) ↦ (
          record x {
            event = after.stream.0;
            streams = update x.streams k after.stream.1;
            seen = update x.seen k after.map;
            finished = update x.finished k after.finished;
          },
          some (is_ready r),
        )
      ]

  -- `TestSpawner::run`: the tasks that are still pending stay, and the others are dropped.
  unfoldable pub run_tasks : List ℕ → Scene → Scene × List ℕ
  run_tasks [] x = (x, [])
  run_tasks (k ∷ rest) x =
      let (after, r) = poll_listener k x in
      let over = option_eq bool_eq r (some true) in
      let (last, left) = run_tasks rest (if over then drop_source k after else after) in
      (last, if over then left else k ∷ left)

  unfoldable pub subscribe_as : ℕ → Scene → Scene
  subscribe_as s x =
      let (e, st) = subscribe x.event in
      record x { event = e; streams = update x.streams s (emitter st) }

  -- One call: the state after it, and whether its outcome is the asserted one.
  unfoldable pub act : Act → Scene → Scene × Bool
  act (emits v) x = (record x { event = emit x.event v }, true)
  act (subscribes s) x = (subscribe_as s x, true)
  act (iterates s items) x = (record x { streams = update x.streams s (iter items) }, true)
  act (polls s cx r) x =
      let ((e, st), answer) = poll_source (x.event, x.streams s) cx in
      (
        record x { event = e; streams = update x.streams s st },
        poll_eq (option_eq (λ a b. a == b)) answer r,
      )
  act (drops_stream s) x = (drop_source s x, true)
  act drops_emitter x = (record x { event = drop_event x.event }, true)
  act (polls_once s cx r) x = elim (subscribe_once_poll poll_source (x.event, x.streams s) cx) [
    | none ↦ (x, once_eq none r)
    | some ((e, st), answer) ↦
        (record x { event = e; streams = update x.streams s st }, once_eq (some answer) r)
  ]
  act (polls_listener k b) x =
      let (after, r) = poll_listener k x in (after, option_eq bool_eq r (some b))
  act (spawns k) x =
      let after = subscribe_as k x in (record after { tasks = after.tasks ++ k ∷ [] }, true)
  act runs x = let (after, left) = run_tasks x.tasks x in (record after { tasks = left }, true)
  act (has_pending n) x = (x, length x.tasks == n)
  act (logs k vs) x = (x, list_eq (λ a b. a == b) (x.seen k) vs)
  act (woken ws) x = (x, list_eq (λ a b. a == b) x.event.woken ws)

-- A script begins with the closures of its listeners: the value to log, and whether to go on.
abbrev pub Script : Type 0
Script = (ℕ → ℕ → ℕ × Bool) × List Act

unfoldable pub passes : Script → Bool
passes (map, script) = run (act map) script (record {
  event = new;
  streams = λ s. iter [];
  seen = λ k. [];
  finished = λ k. false;
  tasks = [];
})
