-- ===== src/Oneshot/Awaiting/Tests.antt =====
-- A task that awaits a receiver, and the theorem at the state in which it sleeps.
use eneste_rs.Prelude.{ℕ, ◌≡◌, refl, ap, List, [], ◌∷◌, ◌++◌, Option, none, some, arith, usize_add}
use eneste_rs.Channel.{ChannelResult, ok, channel_error}
use eneste_rs.Event.{Poll, ready, pending, poll as poll_listener, new_with, listen as listen_to}
use eneste_rs.Event.Map.{get, insert, set_value}
use eneste_rs.Executor.{
  ExecutorState, FutureOps, new, spawn, schedule, process_tasks, run_all, run, finish, drop_left,
  drop_slot,
}
use eneste_rs.Executor.Calls.{Calls, nothing, acts, FutureLaws}
use eneste_rs.Executor.System.{Reach, created, after, spawns, processes}
use eneste_rs.Oneshot.{Channel, channel, poll, wait, send, drop_sender}
use eneste_rs.Oneshot.Awaiting.{Asleep, Served, awaiting_task_receives}

abbrev Now : Type 0
Now = ExecutorState (Channel ℕ × List (ChannelResult ℕ)) (Unit {0})

-- A future that awaits the receiver and keeps what it gets: the end of a poll, and the poll.
unfoldable keep_result :
    Now → Option (Channel ℕ × Poll (ChannelResult ℕ)) → Now × Unit {0} × Poll (Unit {0})
keep_result x none = (x, tt, pending)
keep_result x (some (c, pending)) = (record x { outside = (c, x.outside.1) }, tt, pending)
keep_result x (some (c, ready r)) =
    (record x { outside = (c, x.outside.1 ++ r ∷ []) }, tt, ready tt)

unfoldable await_poll : Unit {0} → ℕ → Now → Now × Unit {0} × Poll (Unit {0})
await_poll f id x = keep_result x (poll x.outside.0 id)

abbrev await_ops : FutureOps (Channel ℕ × List (ChannelResult ℕ)) (Unit {0})
await_ops = record { poll = await_poll; drop_future = λ f e. e }

keep_result-Calls :
    (x : Now) (r : Option (Channel ℕ × Poll (ChannelResult ℕ))) → Calls x (keep_result x r).0
unfolding keep_result
keep_result-Calls x none = nothing
keep_result-Calls x (some (c, pending)) = acts nothing (c, x.outside.1)
keep_result-Calls x (some (c, ready r)) = acts nothing (c, x.outside.1 ++ r ∷ [])

await_laws : FutureLaws await_ops
unfolding await_poll
await_laws = record {
  poll_calls = λ f id x lt. keep_result-Calls x (poll x.outside.0 id);
  drop_calls = λ f e. nothing;
}

await_poll-ready :
    (id : ℕ) (x : Now) (c : Channel ℕ) (r : ChannelResult ℕ)
    → poll x.outside.0 id ≡ some (c, ready r)
    → await_poll tt id x ≡ (record x { outside = (c, x.outside.1 ++ r ∷ []) }, tt, ready tt)
unfolding await_poll keep_result
await_poll-ready id x c r p = ap (keep_result x) p

-- The task is spawned, and polled once.
awaited : (x : Now) × Reach await_ops await_laws x
unfolding new spawn schedule process_tasks run_all run finish drop_left drop_slot await_poll
    keep_result channel poll wait poll_listener new_with listen_to insert get set_value usize_add
awaited = (_, after (after (created (channel, [])) (spawns tt (omega arith) refl)) (processes 1))

awaited_Asleep : Asleep await_ops await_laws tt (λ r rs. rs ++ r ∷ []) await_poll-ready 0 awaited.0
unfolding awaited
awaited_Asleep = record { reached = awaited.1; on = refl; live = refl; slot = refl; alone = refl }

awaiting_task_receives_example :
    (c : Channel ℕ) × (send awaited.0.outside.0 7 ≡ some (c, ok tt))
    × (c.event.woken ≡ awaited.0.outside.0.event.woken ++ 0 ∷ [])
    × Served await_ops await_laws tt (λ r rs. rs ++ r ∷ []) await_poll-ready 1 0 awaited.0 c (ok 7)
    × ((drop_sender awaited.0.outside.0).event.woken ≡ awaited.0.outside.0.event.woken ++ 0 ∷ [])
    × Served await_ops await_laws tt
        (λ r rs. rs ++ r ∷ [])
        await_poll-ready
        1
        0
        awaited.0
        (drop_sender awaited.0.outside.0)
        channel_error
unfolding awaited
awaiting_task_receives_example =
    awaiting_task_receives await_ops await_laws tt (λ r rs. rs ++ r ∷ []) await_poll-ready 1 0
      awaited.0 7 awaited_Asleep (omega arith) refl refl refl
