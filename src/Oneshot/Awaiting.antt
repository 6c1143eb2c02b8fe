-- ===== src/Oneshot/Awaiting.antt =====
-- A task of the executor (src/executor.rs) that awaits the receiver of a oneshot channel
-- (src/channel/oneshot.rs).
mod Tests
use eneste_rs.Prelude.{
  ℕ, ◌+◌, ◌≤◌, update, ◌<◌, ◌≡◌, ◌∙◌, refl, ap, true, false, List, [], ◌∷◌, ◌++◌, none, some, arith,
  min, Bool-cases, inl, inr,
}
use eneste_rs.Channel.{ChannelResult, ok, channel_error}
use eneste_rs.Event.{Inner, ready, pending}
use eneste_rs.Event.Listener.{waiting_entry}
use eneste_rs.Executor.{
  ExecutorState, Slot, FutureOps, is_finished, schedule, process_tasks, run, run_all, finish,
  drop_left, drop_slot,
}
use eneste_rs.Executor.Calls.{FutureLaws}
use eneste_rs.Executor.Begin.{begun}
use eneste_rs.Executor.Run.{settled, run_lem}
use eneste_rs.Executor.System.{Reach, Reach-Inv}
use eneste_rs.Oneshot.{empty, Channel, drop_sender, send, poll}
use eneste_rs.Oneshot.Closing.{receiver_woken}

-- The futures share a channel, and anything else, which is of type `V`. `f` is a future at an `await` of
-- the receiver; `receive` is what it does with the result before it ends.
module _ {T V F : Type 0} (ops : FutureOps (Channel T × V) F) (laws : FutureLaws ops) (f : F)
    (receive : ChannelResult T → V → V)
    (awaits : (id : ℕ) (x : ExecutorState (Channel T × V) F) (c : Channel T) (r : ChannelResult T)
      → poll x.outside.0 id ≡ some (c, ready r)
      → ops.poll f id x ≡ (record x { outside = (c, receive r x.outside.1) }, f, ready tt)) where
  -- The queue is empty, and the task `id` sleeps with the future `f`.
  pub record Asleep (id : ℕ) (x : ExecutorState (Channel T × V) F) : Type 0 where
    pub reached : Reach ops laws x
    pub on : x.closed ≡ false
    pub live : is_finished (x.headers id) ≡ false
    pub slot : x.slots id ≡ some (record { future = some f })
    pub alone : x.inbox ≡ []

  scheduled_alone :
      (id : ℕ) (x : ExecutorState (Channel T × V) F) → Asleep id x → (x.headers id).queued ≡ false
  scheduled_alone id x a = elim (Bool-cases (x.headers id).queued) [
    | inl q ↦
        absurd (ground (arith, (Reach-Inv ops laws a.reached id).waiting q a.live a.on, a.alone))
    | inr q ↦ q
  ]

  -- The last poll of the task, when it is run: its future is dropped after `d`.
  last_poll :
      (id : ℕ) (x : ExecutorState (Channel T × V) F) (c : Channel T) (r : ChannelResult T)
      → is_finished (x.headers id) ≡ false
      → x.slots id ≡ some (record { future = some f })
      → poll x.outside.0 id ≡ some (c, ready r)
      → (d : ExecutorState (Channel T × V) F) × (run ops id x ≡ ops.drop_future f d)
        × (d.outside ≡ (c, receive r x.outside.1))
        × ((d.headers id).completed ≡ true)
        × (d.slots id ≡ none)
  unfolding finish drop_left drop_slot
  last_poll id x c r u s p =
      let k = record (begun id x) { outside = (c, receive r x.outside.1) } in
      let d = (finish id f (ready tt) k).0 in
      (
        d,
        run_lem ops laws id x (record { future = some f }) f u s refl
            ∙ ap (settled ops laws id) (awaits id (begun id x) c r p)
            ∙ ground arith,
        refl,
        ground arith,
        ground arith,
      )

  -- What comes of the task when it is woken after its channel became `c'`, where it has a result: the
  -- next `process_tasks` polls it, it receives the result, and it is completed and dropped.
  abbrev pub Served : ℕ → ℕ → ExecutorState (Channel T × V) F → Channel T → ChannelResult T → Type 0
  Served n id x c' r =
      (d : ExecutorState (Channel T × V) F) × (process_tasks ops n
          (schedule id (record x { outside = (c', x.outside.1) }))
        ≡ ops.drop_future f d)
      × (d.outside.1 ≡ receive r x.outside.1)
      × ((d.headers id).completed ≡ true)
      × (d.slots id ≡ none)

  woken-Served :
      (n id : ℕ) (x : ExecutorState (Channel T × V) F) (c' c : Channel T) (r : ChannelResult T)
      → Asleep id x
      → 1 ≤ n
      → poll c' id ≡ some (c, ready r)
      → Served n id x c' r
  unfolding schedule process_tasks run_all
  woken-Served n id x c' c r a h p =
      let told = record x { outside = (c', x.outside.1) } in
      let woken = schedule id told in
      let queued : woken ≡ record told {
        headers = update x.headers id (record (x.headers id) { queued = true });
        inbox = id ∷ [];
        wakes = x.wakes + 1;
      } =
        ground (arith, a.live, a.on, a.alone, scheduled_alone id x a) in
      let left = record woken { inbox = [] } in
      let only : process_tasks ops n woken ≡ run ops id left = ground (arith, queued, h) in
      let l =
        last_poll id left c r (ground (arith, queued, a.live)) (ground (arith, queued, a.slot))
          (ground (arith, queued, p)) in
      (l.0, only ∙ l.1, ground (arith, l.2, queued), l.3, l.4)

  -- A task sleeps at the `await` of the receiver of an empty channel, nothing else is queued, and its
  -- future ends once it has the result. When the sender sends `v`, or is dropped, the channel wakes that
  -- task, once; with this wake-up the next `process_tasks` polls the task, which receives `v`, or the
  -- error, and is completed, and its future is dropped.
  pub awaiting_task_receives :
      (n id : ℕ) (x : ExecutorState (Channel T × V) F) (v : T)
      → Asleep id x
      → 1 ≤ n
      → x.outside.0.state ≡ empty
      → x.outside.0.event.notified ≡ 0
      → x.outside.0.event.listeners ≡ (x.outside.0.listener, waiting_entry (some id)) ∷ []
      → (c : Channel T) × (send x.outside.0 v ≡ some (c, ok tt))
        × (c.event.woken ≡ x.outside.0.event.woken ++ id ∷ [])
        × Served n id x c (ok v)
        × ((drop_sender x.outside.0).event.woken ≡ x.outside.0.event.woken ++ id ∷ [])
        × Served n id x (drop_sender x.outside.0) channel_error
  awaiting_task_receives n id x v a h e z l =
      let w = receiver_woken x.outside.0 v id id e z l in
      (
        w.0,
        w.1,
        w.2,
        woken-Served n id x w.0 _ (ok v) a h w.3,
        w.4,
        woken-Served n id x (drop_sender x.outside.0) _ channel_error a h w.5,
      )
