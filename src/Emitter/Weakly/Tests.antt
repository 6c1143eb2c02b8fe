-- ===== src/Emitter/Weakly/Tests.antt =====
-- Listeners of src/emitter.rs that know two values by weak handles, with both alive and with one gone.
use eneste_rs.Prelude.{
  ℕ, ◌+◌, ◌≡◌, refl, Bool, true, List, [], ◌∷◌, Option, none, some, ◌==◌, if◌then◌else◌, arith,
}
use eneste_rs.Event.{Poll, ready, Waker}
use eneste_rs.Emitter.{Listener, listener_poll}
use eneste_rs.Emitter.Handling.{yields, stops}
use eneste_rs.Emitter.Weakly.{
  with_handle, and_handle, listen, listen_with_this, listen_with_this_and,
}
use eneste_rs.Emitter.Weakly.Owner.{stops_without_owner}
use eneste_rs.Upgrade.{Store, Value, downgrade, drop, upgrade, upgrade_weak}

-- Allocation 1 has one owner, allocation 2 has one, allocation 3 is gone.
abbrev counts : Store
counts a = if a == 1 then 1 else if a == 2 then 1 else 0

unfoldable from_list : List ℕ → Waker → List ℕ × Poll (Option ℕ)
from_list [] cx = ([], ready none)
from_list (x ∷ xs) cx = (xs, ready (some x))

-- A closure that adds up what it is called with, and drops the values it is given.
unfoldable add_up : Store × ℕ → Value → Value → ℕ → (Store × ℕ) × Bool
add_up (s, m) v w event = ((drop w (drop v s), m + event), true)

unfoldable polled : Value → Option (Listener (List ℕ) (Store × ℕ) × Poll (Unit {0}))
unfolding listen listen_with_this listen_with_this_and
polled value =
    (listen_with_this_and from_list 9 (λ tasks future poll. (tasks, poll future 1)) tt (4 ∷ 5 ∷ [])
      (Value.rc 1) value (counts, 0) add_up).1

sum_of : Option (Listener (List ℕ) (Store × ℕ) × Poll (Unit {0})) → ℕ × ℕ
sum_of none = (0, 0)
sum_of (some (l, r)) = (l.map.1, l.map.0 1)

-- Both values are alive: two calls, and the closure leaves one owner.
both_alive : sum_of (polled (Value.rc 2)) ≡ (9, 1)
unfolding sum_of polled listener_poll from_list add_up with_handle and_handle downgrade upgrade
    upgrade_weak drop
both_alive = refl

-- The second value is gone: no call, and the first has one owner, as before.
second_gone : sum_of (polled (Value.rc 3)) ≡ (0, 1)
unfolding sum_of polled listener_poll from_list add_up with_handle and_handle downgrade upgrade
    upgrade_weak drop
second_gone = refl

stops_without_owner_example :
    (l : Listener (List ℕ) (Store × ℕ)) × (polled (Value.rc 3) ≡ some (l, ready tt))
    × (l.map ≡ (counts, 0))
    × (l.finished ≡ true)
unfolding polled from_list downgrade
stops_without_owner_example =
    stops_without_owner from_list 1 9 (4 ∷ 5 ∷ []) (Value.rc 1) (Value.rc 3) (counts, 0) add_up 4
      (5 ∷ []) true (yields refl (yields refl (stops refl))) (omega arith) refl
