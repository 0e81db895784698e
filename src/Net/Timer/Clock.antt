-- ===== src/Net/Timer/Clock.antt =====
-- The time that `resetTimerfd` of net/src/timer.cpp hands to the descriptor.
use qinyunserver.Base.{ℕ, ◌+◌, ◌-◌, ◌*◌, ◌<◌, ◌≤◌, ◌≡◌, arith}
use qinyunserver.Net.Timer.{how_much_time_from_now}

-- The time handed to the descriptor is what is left until the timer, and never less than 100
-- microseconds, also for one that is past; its nanoseconds stay below a second.
pub how_much_time_from_now_lem :
    (now when : ℕ)
    → ((how_much_time_from_now now when).1 < 1000000000)
      × (100000
          ≤ (how_much_time_from_now now when).0 * 1000000000 + (how_much_time_from_now now when).1)
      × (now + 100 ≤ when
          → (how_much_time_from_now now when).0 * 1000000000 + (how_much_time_from_now now when).1
            ≡ (when - now) * 1000)
unfolding how_much_time_from_now
how_much_time_from_now_lem now when = ground arith
