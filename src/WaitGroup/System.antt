-- ===== src/WaitGroup/System.antt =====
-- Every history of a wait group with its tickets and one future of `wait` (src/waitgroup.rs).
use eneste_rs.Prelude.{
  ℕ, suc, ◌+◌, ◌-◌, ◌≤◌, ◌<◌, ◌≡◌, ◌≢◌, ◌∙◌, refl, sym, [], ◌∷◌, ◌++◌, some, arith, ◌==◌,
  if◌then◌else◌, usize_mod, usize_add_lem, usize_sub_lem, eq_of_some, inl, inr, subst, ap,
}
use eneste_rs.Event.{Poll, ready, pending, Waker, new_with}
use eneste_rs.Event.Listener.{waiting_entry}
use eneste_rs.Event.Single.{notify-asleep}
use eneste_rs.Event.Stream.{listening}
use eneste_rs.WaitGroup.{
  WaitGroup, WaitState, start, looping, finished, new, add, drop_ticket, wait_poll, drop_wait,
}
use eneste_rs.WaitGroup.Answer.{Waits, Good, wait_poll-Answers}
use eneste_rs.WaitGroup.Calls.{tickets-drop_wait, drop_wait-Good, drop_ticket-Good, add-Waits}

-- The group, the number of tickets that are out, and the future of `wait`; `finished` if there is none.
pub record World : Type 0 where
  pub group : WaitGroup
  pub live : ℕ
  pub waiter : WaitState

pub data Step (s : World) : World → Type 0 where
  begins : s.waiter ≡ finished → Step s (record s { waiter = start })
  adds : s.live + 1 < usize_mod → Step s (record s { group = add s.group; live = s.live + 1 })
  drops : 1 ≤ s.live → Step s (record s { group = drop_ticket s.group; live = s.live - 1 })
  polls :
      (fuel : ℕ) (cx : Waker) {g : WaitGroup} {w : WaitState} {r : Poll (Unit {0})}
      → s.waiter ≢ finished
      → s.group.event.next_id + 2 < usize_mod
      → wait_poll (suc (suc fuel)) s.group s.waiter cx ≡ some (g, w, r)
      → Step s (record s { group = g; waiter = w })
  cancels : Step s (record s { group = drop_wait s.group s.waiter; waiter = finished })

pub data Reach : World → Type 0 where
  created : Reach (record { group = new; live = 0; waiter = finished })
  after : {s t : World} → Reach s → Step s t → Reach t

record Sound (s : World) : Type 0 where
  good : Good s.group s.waiter
  counted : s.group.tickets ≡ s.live
  small : s.live < usize_mod

Step-Sound : {s t : World} → Step s t → Sound s → Sound t
unfolding add drop_ticket Waits
Step-Sound {s} (begins e) d =
    let w = subst (Waits s.group) e d.good.waits in
    record {
      good = record { event = d.good.event; living = d.good.living; waits = w };
      counted = d.counted;
      small = d.small;
    }
Step-Sound {s} (adds lt) d = record {
  good = record {
    event = d.good.event;
    living = d.good.living;
    waits = add-Waits s.group s.waiter (omega (arith, d.counted)) d.good.waits;
  };
  counted = omega (arith, usize_add_lem s.group.tickets 1, d.counted);
  small = lt;
}
Step-Sound {s} (drops h) d = record {
  good = drop_ticket-Good s.group s.waiter d.good;
  counted = omega (arith, usize_sub_lem s.group.tickets 1, d.counted, d.small);
  small = omega (arith, d.small);
}
Step-Sound {s} (polls fuel cx {g} {w} {r} ne lt p) d =
    let a = wait_poll-Answers fuel s.group s.waiter cx d.good ne lt in
    let same = eq_of_some (sym a.2 ∙ p) in
    record {
      good = subst (λ x. Good x.0 x.1) same a.3;
      counted = sym (ap (λ x. x.0.tickets) same) ∙ a.4 ∙ d.counted;
      small = d.small;
    }
Step-Sound {s} cancels d = record {
  good = drop_wait-Good s.group s.waiter d.good;
  counted = tickets-drop_wait s.group s.waiter ∙ d.counted;
  small = d.small;
}

Reach-Sound : {s : World} → Reach s → Sound s
unfolding new new_with Waits
Reach-Sound created = record {
  good = record {
    event = record {
      ordered = omega arith;
      counted = refl;
      few = omega arith;
      small = omega arith;
    };
    living = refl;
    waits = refl;
  };
  counted = refl;
  small = omega arith;
}
Reach-Sound (after r st) = Step-Sound st (Reach-Sound r)

-- After every history, a poll of the future of `wait` comes back, within two rounds of its loop, and it
-- is ready exactly if no ticket is out.
pub wait_ready_at_zero :
    (fuel : ℕ) (cx : Waker) {s : World}
    → Reach s
    → s.waiter ≢ finished
    → s.group.event.next_id + 2 < usize_mod
    → (g : WaitGroup) × (w : WaitState) × (wait_poll (suc (suc fuel)) s.group s.waiter cx
        ≡ some (g, w, if s.live == 0 then ready tt else pending))
wait_ready_at_zero fuel cx {s} r ne lt =
    let d = Reach-Sound r in
    let a = wait_poll-Answers fuel s.group s.waiter cx d.good ne lt in
    (
      a.0,
      a.1,
      subst
          (λ n.
            wait_poll (suc (suc fuel)) s.group s.waiter cx
            ≡ some (a.0, a.1, if n == 0 then ready tt else pending))
          d.counted a.2,
    )

-- Whenever the future of `wait` sleeps, a ticket is out, and the drop of any ticket wakes it.
pub sleeper_is_woken :
    (id : ℕ) (cx : Waker) {s : World}
    → Reach s
    → s.waiter ≡ looping (listening id)
    → s.group.event.listeners ≡ (id, waiting_entry (some cx)) ∷ []
    → (1 ≤ s.live) × ((drop_ticket s.group).event.woken ≡ s.group.event.woken ++ cx ∷ [])
unfolding drop_ticket Waits
sleeper_is_woken id cx {s} r p q =
    let d = Reach-Sound r in
    (
      elim (subst (Waits s.group) p d.good.waits) [
        | inl (c, q', t) ↦ omega (arith, d.counted)
        | inr q' ↦ absurd (ground (arith, sym q ∙ q'))
      ],
      (notify-asleep s.group.event 1 d.good.event (omega arith) (omega arith) id cx q).1,
    )
