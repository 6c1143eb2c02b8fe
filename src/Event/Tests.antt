-- ===== src/Event/Tests.antt =====
-- Runs of src/event.rs at concrete events, and the theorems about it at inputs that meet their
-- hypotheses.
use eneste_rs.Prelude.{
  ℕ, ◌-◌, ◌≡◌, refl, true, false, [], ◌∷◌, ◌++◌, none, some, arith, length, min, max, usize_add,
  usize_sub,
}
use eneste_rs.Event.Map.{get, remove, set_value}
use eneste_rs.Event.{
  ListenerEntry, Inner, Notification, new_with, listen, notify, notify_inner, notify_count,
  notify_loop, drop_listener, hand_on, poll, is_terminated,
}
use eneste_rs.Event.Sweep.{mark, mark_wakers}
use eneste_rs.Event.Invariant.{Inv}
use eneste_rs.Event.Notify.{
  notify_count_exact, notify_fair, drop_hands_on, is_terminated_before_ready,
}
use eneste_rs.Event.Reach.{created, after, listens, notifies, drops, Reach-Inv}
use eneste_rs.Event.Stream.{listening, event_alive, poll_next}
use eneste_rs.Event.Stream.Loop.{poll_once, poll_next-eq-poll_once}

abbrev waiting_by : ℕ → ListenerEntry (Unit {0})
waiting_by cx = record { waker = some cx; value = none }

abbrev given : ListenerEntry (Unit {0})
given = record { waker = none; value = some tt }

-- Three listeners: 0 notified, 1 and 2 waiting.
abbrev three : Inner (Unit {0})
three = record {
  listeners = (0, given) ∷ (1, waiting_by 7) ∷ (2, waiting_by 8) ∷ [];
  next_id = 3;
  notified = 1;
  closed = false;
  woken = [];
}

abbrev three-Inv : Inv three
three-Inv = record { ordered = omega arith; counted = refl; few = omega arith; small = omega arith }

abbrev plain_two : Notification (Unit {0})
plain_two = record { count = 2; is_additional = false; tag = tt }

-- `notify(2)` with one listener notified already reaches one more, and wakes it.
notify_two : notify three plain_two ≡ record three {
  listeners = (0, given) ∷ (1, given) ∷ (2, waiting_by 8) ∷ [];
  notified = 2;
  woken = 7 ∷ [];
}
unfolding notify notify_inner notify_count notify_loop usize_add
notify_two = refl

notify_count_exact_example :
    ((notify three plain_two).notified ≡ max 1 (min 2 3))
    × ((notify three plain_two).listeners
        ≡ mark ((notify three plain_two).notified - 1) tt three.listeners)
    × ((notify three plain_two).woken
        ≡ [] ++ mark_wakers ((notify three plain_two).notified - 1) three.listeners)
notify_count_exact_example = notify_count_exact three plain_two three-Inv (omega arith)

abbrev plain_one : Notification (Unit {0})
plain_one = record { count = 1; is_additional = false; tag = tt }

notify_fair_example : get 2 (notify three plain_one).listeners ≡ some (waiting_by 8)
unfolding get notify notify_inner notify_count notify_loop usize_add
notify_fair_example =
    notify_fair three plain_one 1 2 (waiting_by 7) (waiting_by 8) three-Inv (omega arith)
      (omega arith) refl refl refl refl

drop_hands_on_example :
    ((drop_listener three 0).listeners ≡ mark 1 tt (remove 0 three.listeners))
    × ((drop_listener three 0).woken ≡ [] ++ mark_wakers 1 (remove 0 three.listeners))
    × ((drop_listener three 0).notified ≡ min 1 2)
    × (length (drop_listener three 0).listeners ≡ 2)
unfolding get
drop_hands_on_example = drop_hands_on three 0 none tt three-Inv refl

-- The next listener gets the value and is woken.
handed_to_next :
    drop_listener three 0
    ≡ record three { listeners = (1, given) ∷ (2, waiting_by 8) ∷ []; woken = 7 ∷ [] }
unfolding drop_listener hand_on get remove usize_add usize_sub
handed_to_next = refl

is_terminated_before_ready_example :
    (is_terminated three 0 ≡ true)
    × (is_terminated
          (record three {
            listeners =
                (0, record { waker = none; value = none })
                ∷ (1, waiting_by 7)
                ∷ (2, waiting_by 8)
                ∷ [];
            notified = 0;
          })
          0
        ≡ false)
unfolding poll get set_value
is_terminated_before_ready_example = is_terminated_before_ready three _ 0 5 tt refl

Reach-Inv_example : Inv (drop_listener (notify (listen (new_with {T = Unit {0}})).0 plain_one) 0)
unfolding new_with
Reach-Inv_example = Reach-Inv (
    after (after (after created (listens (omega arith))) (notifies plain_one (omega arith)))
      (drops 0))

-- A stream whose event was dropped ends.
abbrev closed_three : Inner (Unit {0})
closed_three = record three { closed = true }

poll_next-eq-poll_once_example :
    poll_next event_alive 4 closed_three (listening 1) 9
    ≡ some (poll_once event_alive closed_three (listening 1) 9)
unfolding get
poll_next-eq-poll_once_example =
    poll_next-eq-poll_once event_alive 0 closed_three (listening 1) 9
      (record { ordered = omega arith; counted = refl; few = omega arith; small = omega arith })
      (omega arith) (waiting_by 7, refl)
