-- ===== src/WaitGroup/Calls.antt =====
-- What `add` and the drops of tickets and of the future of `wait` (src/waitgroup.rs) leave true.
use eneste_rs.Prelude.{
  ◌+◌, ◌<◌, ◌≡◌, ◌∙◌, refl, none, some, arith, usize_mod, usize_add_lem, inl, inr,
}
use eneste_rs.Event.{usize}
use eneste_rs.Event.Invariant.{Inv, notify-Inv}
use eneste_rs.Event.Listener.{waiting_entry, notified_entry, drop_listener-Inv}
use eneste_rs.Event.Single.{notify-asleep, notify-others, closed-notify, dropped-alone}
use eneste_rs.Event.Stream.{listening, next, done, drop_stream}
use eneste_rs.WaitGroup.{
  WaitGroup, WaitState, start, looping, finished, add, drop_ticket, leave, drop_wait,
}
use eneste_rs.WaitGroup.Answer.{Waits, Good}

-- A ticket that is dropped notifies the waiter, if there is one that sleeps.
drop_ticket-Waits :
    (g : WaitGroup) (w : WaitState) → Inv g.event → Waits g w → Waits (drop_ticket g) w
unfolding Waits drop_ticket
drop_ticket-Waits g start v h =
    notify-others g.event 1 v (omega arith) (omega arith) (rw h refl) ∙ h
drop_ticket-Waits g finished v h =
    notify-others g.event 1 v (omega arith) (omega arith) (rw h refl) ∙ h
drop_ticket-Waits g (looping (listening id)) v h = elim h [
  | inl (cx, q, t) ↦ inr (notify-asleep g.event 1 v (omega arith) (omega arith) id cx q).0
  | inr q ↦ inr (notify-others g.event 1 v (omega arith) (omega arith) (rw q refl) ∙ q)
]
drop_ticket-Waits g (looping next) v h = h
drop_ticket-Waits g (looping done) v h = h

-- The future of `wait` is dropped: its listener goes.
pub drop_wait-Good : (g : WaitGroup) (w : WaitState) → Good g w → Good (drop_wait g w) finished
unfolding drop_wait leave drop_stream Waits
drop_wait-Good g start d = record { event = d.event; living = d.living; waits = d.waits }
drop_wait-Good g finished d = d
drop_wait-Good g (looping (listening id)) d = elim d.waits [
  | inl (cx, q, t) ↦
      let a = dropped-alone g.event id (waiting_entry (some cx)) d.event q in
      record { event = drop_listener-Inv g.event id d.event; living = a.1 ∙ d.living; waits = a.0 }
  | inr q ↦
      let a = dropped-alone g.event id (notified_entry none tt) d.event q in
      record { event = drop_listener-Inv g.event id d.event; living = a.1 ∙ d.living; waits = a.0 }
]
drop_wait-Good g (looping next) d = absurd d.waits
drop_wait-Good g (looping done) d = absurd d.waits

pub drop_ticket-Good : (g : WaitGroup) (w : WaitState) → Good g w → Good (drop_ticket g) w
unfolding drop_ticket usize
drop_ticket-Good g w d = record {
  event = notify-Inv g.event (usize 1) d.event (omega arith);
  living = closed-notify g.event 1 d.event (omega arith) (omega arith) ∙ d.living;
  waits = drop_ticket-Waits g w d.event d.waits;
}

pub tickets-drop_wait : (g : WaitGroup) (w : WaitState) → (drop_wait g w).tickets ≡ g.tickets
unfolding drop_wait leave
tickets-drop_wait g start = refl
tickets-drop_wait g (looping st) = refl
tickets-drop_wait g finished = refl

pub add-Waits :
    (g : WaitGroup) (w : WaitState) → g.tickets + 1 < usize_mod → Waits g w → Waits (add g) w
unfolding add Waits
add-Waits g start lt h = h
add-Waits g finished lt h = h
add-Waits g (looping (listening id)) lt h = elim h [
  | inl (cx, q, t) ↦ inl (cx, q, omega (arith, usize_add_lem g.tickets 1 lt))
  | inr q ↦ inr q
]
add-Waits g (looping next) lt h = h
add-Waits g (looping done) lt h = h
