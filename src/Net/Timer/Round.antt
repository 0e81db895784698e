-- ===== src/Net/Timer/Round.antt =====
-- A round of the queue of timers of net/src/timer.cpp: the timers that run out, their callbacks, and the
-- timers that repeat.
use qinyunserver.Base.{ℕ, ◌≡◌, ◌∙◌, true, false, some, List, [], eq→==}
use qinyunserver.Net.Timer.{
  Entry, TimerQueue, has, Call, split_expired, erase_all, get_expired, run_all, handle_read,
}
use qinyunserver.Net.Timer.Entries.{Dated}
use qinyunserver.Net.Timer.Sets.{IsConsistent}
use qinyunserver.Net.Timer.Expiry.{All-split_expired, Unique-split_expired, erase_all-split_expired}
use qinyunserver.Net.Timer.Ringing.{Holds, RunsFresh, Goes, run_all-Goes}
use qinyunserver.Net.Timer.Repeats.{waits_again, Resets, reset-Resets}

-- The queue behind `getExpired`, while the callbacks run.
abbrev pub ringing : ℕ → TimerQueue → List ℕ → TimerQueue
ringing now q left = record q {
  timers = (split_expired now q.timers).1;
  active_timers = left;
  calling_expired_timers = true;
  cancel_timers = [];
}

-- A round of a consistent queue fails no assertion and uses no deleted timer, where the callbacks of the
-- timers that ran out add and cancel timers as they like and each new timer has an address that is not in
-- use. The two sets are consistent again, and behind the callbacks a timer waits exactly if it waited then,
-- or if it ran out in this round and repeats.
pub handle_read-IsConsistent :
    (now later : ℕ) (callback : ℕ → List Call) (q : TimerQueue)
    → IsConsistent q
    → ((left : List ℕ)
        → erase_all (split_expired now q.timers).0 q.active_timers ≡ some left
        → RunsFresh callback (split_expired now q.timers).0 (ringing now q left))
    → (left : List ℕ) × (q₂ : TimerQueue) × (q' : TimerQueue) × (handle_read now later callback q
        ≡ some q')
      × (erase_all (split_expired now q.timers).0 q.active_timers ≡ some left)
      × (run_all callback (split_expired now q.timers).0 (ringing now q left) ≡ some q₂)
      × IsConsistent q'
      × ((j : ℕ) → has j q'.active_timers ≡ waits_again q₂ (split_expired now q.timers).0 j)
unfolding handle_read get_expired Goes Resets
handle_read-IsConsistent now later callback q v fresh =
    let r =
      erase_all-split_expired now q.timers q.active_timers v.same_size v.same_timers v.unique
        v.distinct in
    let (unique, unique_rest, apart) = Unique-split_expired now q.timers v.unique in
    let (dated, dated_rest) = All-split_expired (Dated q.heap) now q.timers v.dated in
    let expired : List Entry = (split_expired now q.timers).0 in
    let q₁ : TimerQueue = ringing now q r.left in
    let v₁ : IsConsistent q₁ = record {
      same_size = r.same_size;
      same_timers = r.same_timers;
      dated = dated_rest;
      unique = unique_rest;
      distinct = r.distinct;
    } in
    let h₁ : Holds q₁ expired = record {
      dated = dated;
      unique = unique;
      away = λ j k. r.same_timers j ∙ apart j k;
    } in
    let (q₂, e₂, v₂, h₂) =
      run_all-Goes callback expired q₁ expired (λ j k. k) v₁ h₁ (fresh r.left r.erased) in
    let q₃ : TimerQueue = record q₂ { calling_expired_timers = false } in
    let v₃ : IsConsistent q₃ = record {
      same_size = v₂.same_size;
      same_timers = v₂.same_timers;
      dated = v₂.dated;
      unique = v₂.unique;
      distinct = v₂.distinct;
    } in
    let h₃ : Holds q₃ expired = record { dated = h₂.dated; unique = h₂.unique; away = h₂.away } in
    let (q', e', v', waits) = reset-Resets later expired q₃ v₃ h₃ in
    (r.left, q₂, q', rw (r.erased, eq→== _ _ r.same_size, e₂) e', r.erased, e₂, v', waits)
