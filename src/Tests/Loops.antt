-- ===== src/Tests/Loops.antt =====
-- The theorems on the event loop at a task that comes while the loop polls.
use qinyunserver.Base.{ℕ, ◌+◌, ◌<◌, ◌≡◌, refl, true, false, List, [], ◌∷◌}
use qinyunserver.Net.Loop.{
  Loop, new_loop, push, needs_wakeup, queue_from_outside, enter, begin_poll, end_poll,
  swap_functors, starts, goes_on, polls, swaps, queues_from_outside, Reach, start, later,
}
use qinyunserver.Net.Loop.Order.{Serve, view, Step-Serve}
use qinyunserver.Net.Loop.Wakeup.{polling-Woken}

-- The task 7 comes in while the loop polls.
abbrev asleep : Loop
asleep = queue_from_outside 7 (begin_poll (enter new_loop))

asleep-Reach : Reach asleep
unfolding new_loop enter begin_poll
asleep-Reach = later (later (later start (starts refl)) (goes_on refl refl)) (queues_from_outside 7)

polling-Woken_example :
    (asleep.early ≡ false
      → (task : ℕ) (rest : List ℕ) → asleep.pending_functors ≡ task ∷ rest
      → 0 < asleep.wakeups + asleep.owed)
    × (asleep.quit ≡ true → 0 < asleep.wakeups + asleep.owed)
unfolding new_loop enter begin_poll queue_from_outside push needs_wakeup
polling-Woken_example = polling-Woken asleep-Reach refl

-- The poll ends, and the tasks are taken.
abbrev awake : Loop
awake = end_poll [] asleep

awake-Reach : Reach awake
unfolding new_loop enter begin_poll queue_from_outside push needs_wakeup
awake-Reach = later asleep-Reach (polls [] refl)

Step-Serve_example : Serve (view awake) (view (swap_functors awake))
unfolding end_poll
Step-Serve_example = Step-Serve awake-Reach (swaps refl refl)
