-- ===== src/Executor/Blocking/Tests.antt =====
-- `block_on` (src/executor.rs) of a future that yields, and of one that waits for nothing.
use eneste_rs.Prelude.{ℕ, ◌+◌, ◌≡◌, refl, Bool, true, false, List, [], ◌∷◌, some}
use eneste_rs.Executor.{ExecutorState, FutureOps, new}
use eneste_rs.Executor.Driving.{block_on}
use eneste_rs.Executor.Blocking.{
  Answer, finished, waits, poll_until, answered, block_on-eq-poll_until,
}

-- The future has a list of what its pending polls do: wake its task, or not. What is outside counts the
-- polls, and the drop of the future adds 100.
abbrev step : List Bool → ℕ → ℕ × Answer (List Bool)
step [] n = (n + 1, finished)
step (woken ∷ rest) n = (n + 1, waits woken rest)

abbrev release : List Bool → ℕ → ℕ
release left n = n + 100

abbrev itself : List Bool → List Bool
itself left = left

abbrev ops : FutureOps ℕ (List Bool)
ops = record {
  poll = λ f id x. answered itself f id x (step f x.outside);
  drop_future = λ f x. record x { outside = release f x.outside };
}

-- Two yields
block_on-eq-poll_until_example :
    (k : ExecutorState ℕ (List Bool)) × (block_on ops 4 (true ∷ true ∷ []) (new 0) ≡ some (k, true))
    × (k.outside ≡ 103)
    × (k.inbox ≡ [])
unfolding new poll_until
block_on-eq-poll_until_example =
    block_on-eq-poll_until ops step release itself (λ g id x. refl) (λ g x. refl) 3
      (true ∷ true ∷ []) (new 0) 103 true refl refl refl

-- One yield, and then a poll that is pending without a wake-up: the panic
deadlock :
    (k : ExecutorState ℕ (List Bool)) × (block_on ops 4 (true ∷ false ∷ []) (new 0)
      ≡ some (k, false))
    × (k.outside ≡ 2)
    × (k.inbox ≡ [])
unfolding new poll_until
deadlock =
    block_on-eq-poll_until ops step release itself (λ g id x. refl) (λ g x. refl) 3
      (true ∷ false ∷ []) (new 0) 2 false refl refl refl
