-- ===== src/Tests/Timers.antt =====
-- The theorems on the queue of timers at one timer that repeats.
use qinyunserver.Base.{
  ℕ, ◌≤◌, ◌<◌, ◌≡◌, ◌==◌, All, arith, refl, true, false, none, some, List, [], ◌∷◌, if◌then◌else◌,
}
use qinyunserver.Net.Timer.{
  Timer, TimerQueue, has, Call, adds, cancels, do_call, split_expired, run_all, handle_read,
}
use qinyunserver.Net.Timer.Sets.{IsConsistent}
use qinyunserver.Net.Timer.Consistent.{KeepsOthers, waits_after}
use qinyunserver.Net.Timer.Repeats.{waits_again}
use qinyunserver.Net.Timer.Armed.{IsTimely, do_call-IsTimely, handle_read-IsTimely}
use qinyunserver.Net.Timer.Round.{ringing}

abbrev ticker : Timer
ticker = record { expired = 100; repeated = true; interval = 1000000; sequence = 0 }

abbrev one_timer : TimerQueue
one_timer = record {
  heap = λ p. if p == 5 then some ticker else none;
  timers = record { when = 100; timer = 5 } ∷ [];
  active_timers = 5 ∷ [];
  cancel_timers = [];
  calling_expired_timers = false;
  armed = some 100;
}

one_timer-IsConsistent : IsConsistent one_timer
unfolding has
one_timer-IsConsistent = record {
  same_size = refl;
  same_timers = λ p. refl;
  dated = ((ticker, refl, refl), tt);
  unique = (refl, tt);
  distinct = (refl, tt);
}

-- The timer cancels itself when it runs out.
abbrev cancels_itself : ℕ → List Call
cancels_itself p = cancels p ∷ []

-- An earlier timer comes, so that the descriptor is set anew.
abbrev comes_first : Call
comes_first = adds 6 1 50 0

one_timer-IsTimely : IsTimely one_timer
one_timer-IsTimely = record {
  consistent = one_timer-IsConsistent;
  ordered = ((tt, tt), (omega arith, tt));
  armed = (omega arith, tt);
}

do_call-IsTimely_example :
    (q' : TimerQueue) × (do_call comes_first one_timer ≡ some q')
    × IsTimely q'
    × ((j : ℕ) → has j q'.active_timers ≡ waits_after comes_first one_timer j)
    × KeepsOthers comes_first one_timer q'
unfolding has
do_call-IsTimely_example =
    do_call-IsTimely comes_first one_timer (omega arith) refl one_timer-IsTimely

handle_read-IsTimely_example :
    (left : List ℕ) × (q₂ : TimerQueue) × (q' : TimerQueue) × (handle_read 100 200 cancels_itself
        one_timer
      ≡ some q')
    × (run_all cancels_itself (split_expired 100 one_timer.timers).0 (ringing 100 one_timer left)
        ≡ some q₂)
    × IsTimely q'
    × ((j : ℕ) → has j q'.active_timers ≡ waits_again q₂ (split_expired 100 one_timer.timers).0 j)
    × All (λ e. e.when ≤ 100) (split_expired 100 one_timer.timers).0
    × All (λ e. 100 < e.when) (split_expired 100 one_timer.timers).1
unfolding split_expired
handle_read-IsTimely_example =
    handle_read-IsTimely 100 200 cancels_itself one_timer (omega arith) (λ p. (tt, tt))
      one_timer-IsConsistent one_timer-IsTimely.ordered (λ left e. ((tt, λ q' f. tt), λ q' f. tt))
