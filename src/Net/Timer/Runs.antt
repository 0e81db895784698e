-- ===== src/Net/Timer/Runs.antt =====
-- The timers that `runAt`, `runAfter` and `runEvery` of net/src/eventloop.cpp make.
use qinyunserver.Base.{ℕ, ◌<◌, ◌≡◌, refl, ap, subst, ◌∙◌, true, false, some, eq→==, lt→ltb}
use qinyunserver.Net.Poller.{update_at}
use qinyunserver.Net.Timestamp.{add_time}
use qinyunserver.Net.Timer.{
  Timer, TimerQueue, new_timer, Call, adds, has, do_call, run_after, run_every, add_timer,
}
use qinyunserver.Net.Timer.Sets.{IsConsistent, heap-IsConsistent, add_timer_in_loop_lem}

-- Behind a call the timer `p` waits, is the object `t`, and the sets are consistent.
Waits : Call → ℕ → Timer → TimerQueue → Type 0
Waits c p t q =
    (q' : TimerQueue) × (do_call c q ≡ some q')
    × IsConsistent q'
    × (q'.heap p ≡ some t)
    × (has p q'.active_timers ≡ true)

-- A new timer waits, with the time and the interval that it was made with.
adds-Waits :
    (p sequence when interval : ℕ) (q : TimerQueue)
    → IsConsistent q
    → has p q.active_timers ≡ false
    → Waits (adds p sequence when interval) p (new_timer when interval sequence) q
unfolding do_call add_timer has Waits
adds-Waits p sequence when interval q v new =
    let t : Timer = new_timer when interval sequence in
    let q₁ : TimerQueue = record q { heap = update_at q.heap p (some t) } in
    let here : q₁.heap p ≡ some t = rw (eq→== p p refl) refl in
    let (q₂, e, v₂, a, h) =
      add_timer_in_loop_lem q₁ (heap-IsConsistent q p (some t) new v) p t here new in
    (q₂, e, v₂, ap (λ f. f p) h ∙ here, ap (has p) a ∙ rw (eq→== p p refl) refl)

module _ (p sequence now : ℕ) (q : TimerQueue) (v : IsConsistent q)
    (new : has p q.active_timers ≡ false) where
  -- `runAfter` leaves a timer that is due once, after the delay.
  run_after-Waits :
      (delay : ℕ)
      → Waits
          (run_after p sequence now delay)
          p
          (record {
            expired = add_time now delay;
            repeated = false;
            interval = 0;
            sequence = sequence;
          })
          q
  unfolding new_timer
  run_after-Waits delay = adds-Waits p sequence (add_time now delay) 0 q v new

  -- `runEvery` leaves one that is due after the interval and repeats, if the interval is not zero.
  run_every-Waits :
      (interval : ℕ)
      → 0 < interval
      → Waits
          (run_every p sequence now interval)
          p
          (record {
            expired = add_time now interval;
            repeated = true;
            interval = interval;
            sequence = sequence;
          })
          q
  unfolding new_timer
  run_every-Waits interval h =
      subst
        (λ b.
          Waits (run_every p sequence now interval) p
            (record {
              expired = add_time now interval;
              repeated = b;
              interval = interval;
              sequence = sequence;
            })
            q)
        (lt→ltb 0 interval h) (adds-Waits p sequence (add_time now interval) interval q v new)
