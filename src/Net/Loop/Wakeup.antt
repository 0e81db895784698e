-- ===== src/Net/Loop/Wakeup.antt =====
-- The event loop of net/src/eventloop.cpp does not sleep over a task or over the end.
use qinyunserver.Base.{ℕ, ◌+◌, ◌<◌, ◌≡◌, ap, Bool, true, false, List, [], ◌∷◌, arith}
use qinyunserver.Net.Loop.{
  wakeup_channel, other_channel, Place, polling, handling, Loop, new_loop, wakeup, push,
  needs_wakeup, queue_in_loop, queue_early, queue_from_outside, quit_in_loop, quit_from_outside,
  handle_wakeup, enter, begin_poll, end_poll, handle_channel, leave, swap_functors, run_functor,
  end_functors, Step, starts, goes_on, ends, polls, handles, swaps, runs, finishes, queues,
  queues_early, queues_from_outside, quits, quits_from_outside, wakes, Reach, start, later,
}
use qinyunserver.Net.Loop.Order.{Tidy, Reach-Tidy}

abbrev is_settled : Place → Bool
is_settled handling = false
is_settled _ = true

abbrev is_polling : Place → Bool
is_polling polling = true
is_polling _ = false

abbrev some_pending : List ℕ → Bool
some_pending [] = false
some_pending (x ∷ xs) = true

-- Except while channels are handled, whatever is pending was announced; and so is the end, in poll.
pub record Woken (s : Loop) : Type 0 where
  pub pending :
      is_settled s.place ≡ true
      → s.early ≡ false
      → some_pending s.pending_functors ≡ true
      → 0 < s.wakeups + s.owed
  pub quitting : is_polling s.place ≡ true → s.quit ≡ true → 0 < s.wakeups + s.owed

Step-Woken : {s t : Loop} → Tidy s → Step s t → Woken s → Woken t
unfolding wakeup push needs_wakeup queue_in_loop queue_early queue_from_outside quit_in_loop
    quit_from_outside handle_wakeup enter begin_poll end_poll handle_channel leave swap_functors
    run_functor end_functors
Step-Woken u (starts p) h = ground arith
Step-Woken u (goes_on p q) h = ground arith
Step-Woken u (ends p q) h = ground arith
Step-Woken u (polls ready p) h = ground arith
Step-Woken u (handles wakeup_channel rest p q) h = ground arith
Step-Woken u (handles (other_channel c) rest p q) h = ground arith
Step-Woken u (swaps p q) h = ground arith
Step-Woken u (runs task rest p q) h = ground arith
Step-Woken u (finishes p q) h = ground arith
Step-Woken u (queues task p) h = ground arith
Step-Woken u (queues_early task p) h = ground arith
Step-Woken u (queues_from_outside task) h = ground arith
Step-Woken u (quits p) h = ground arith
Step-Woken u quits_from_outside h = ground arith
Step-Woken u (wakes k p) h = ground arith

Reach-Woken : {s : Loop} → Reach s → Woken s
unfolding new_loop
Reach-Woken start = record {
  pending = λ a b c. absurd (false≢true c);
  quitting = λ a b. absurd (false≢true b);
}
  where
    false≢true : false ≡ true → ⊥
    false≢true e = cc
Reach-Woken (later r st) = Step-Woken (Reach-Tidy r) st (Reach-Woken r)

-- In every state that can be reached in which the loop stands in poll, a task that is pending was
-- announced: the counter of the event descriptor is not 0, or a thread that has queued a task or quit is
-- about to write it; unless the loop's own thread has queued a task outside `loop` that is still pending.
-- The counter, or such a thread, is there likewise where the loop is to quit.
pub polling-Woken :
    {s : Loop}
    → Reach s
    → s.place ≡ polling
    → (s.early ≡ false
        → (task : ℕ) (rest : List ℕ) → s.pending_functors ≡ task ∷ rest
        → 0 < s.wakeups + s.owed)
      × (s.quit ≡ true → 0 < s.wakeups + s.owed)
polling-Woken {s = s} r p = (
  (λ e task rest q. (Reach-Woken r).pending (ap is_settled p) e (ap some_pending q)),
  λ q. (Reach-Woken r).quitting (ap is_polling p) q,
)
