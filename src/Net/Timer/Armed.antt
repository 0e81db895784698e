-- ===== src/Net/Timer/Armed.antt =====
-- The descriptor of net/src/timer.cpp is set for no later than any timer that waits.
use qinyunserver.Base.{
  ℕ, ◌≤◌, ◌<◌, ◌≡◌, sym, ◌∙◌, subst, Bool, true, false, Option, none, some, List, [], ◌∷◌, ◌==◌,
  ltb, if◌then◌else◌, length, arith, All, Bool-cases, lt→ltb, inl, inr,
}
use qinyunserver.Net.Poller.{update_at}
use qinyunserver.Net.Timer.{
  new_timer, Entry, TimerQueue, has, earliest, assert, arm, add_timer, Call, adds, cancels, do_call,
  split_expired, erase_all, get_expired, run_all, reset_all, reset, handle_read,
}
use qinyunserver.Net.Timer.Entries.{Dated}
use qinyunserver.Net.Timer.Sets.{IsConsistent, Dated-update_at}
use qinyunserver.Net.Timer.Consistent.{IsLegal, waits_after, KeepsOthers, do_call-IsConsistent}
use qinyunserver.Net.Timer.Order.{
  IsOrdered, Ordered, HasTime, do_call-Ordered, run_all-Ordered, reset_all-Ordered,
  split_expired-IsOrdered,
}
use qinyunserver.Net.Outcome.{Post, gives, Post->>=, Post-some, any, kept}
use qinyunserver.Net.Timer.Ringing.{RunsFresh}
use qinyunserver.Net.Timer.Repeats.{waits_again}
use qinyunserver.Net.Timer.Round.{ringing, handle_read-IsConsistent}
use qinyunserver.Net.Timer.Deadline.{
  SetFor, IsArmed, SetFor-nil, assert-same, earliest-first, add_timer_in_loop-IsArmed,
  cancel_timer_in_loop-IsArmed,
}

do_call-IsArmed :
    (c : Call) (q : TimerQueue)
    → HasTime c
    → IsLegal c q
    → IsConsistent q
    → Ordered q
    → IsArmed q
    → Post IsArmed (do_call c q)
unfolding do_call add_timer
do_call-IsArmed (adds p sequence when interval) q t l v o a =
    add_timer_in_loop-IsArmed p
      (record q { heap = update_at q.heap p (some (new_timer when interval sequence)) })
      (Dated-update_at q.heap p _ q.timers (sym (v.same_timers p) ∙ l) v.dated) o a
do_call-IsArmed (cancels p) q t l v o a = cancel_timer_in_loop-IsArmed p q a

-- The queue is consistent and in order, and its descriptor is set for no later than any timer.
pub record IsTimely (q : TimerQueue) : Type 0 where
  pub consistent : IsConsistent q
  pub ordered : Ordered q
  pub armed : IsArmed q

-- Adding a timer with a valid time and a new address, or cancelling one, fails no assertion and uses no
-- deleted timer. The two sets stay consistent, the set stays in the order of the times, and the
-- descriptor is set for no later than any timer that waits; exactly the timers that should wait then do,
-- and a timer that does not wait stays as it is, but for one that is new at its address.
pub do_call-IsTimely :
    (c : Call) (q : TimerQueue)
    → HasTime c
    → IsLegal c q
    → IsTimely q
    → (q' : TimerQueue) × (do_call c q ≡ some q')
      × IsTimely q'
      × ((j : ℕ) → has j q'.active_timers ≡ waits_after c q j)
      × KeepsOthers c q q'
do_call-IsTimely c q t l v =
    let (q', e, v', waits, others) = do_call-IsConsistent c q v.consistent l in
    (
      q',
      e,
      record {
        consistent = v';
        ordered = Post-some (subst (Post Ordered) e (do_call-Ordered c q t v.ordered));
        armed =
            Post-some
              (subst (Post IsArmed) e (do_call-IsArmed c q t l v.consistent v.ordered v.armed));
      },
      waits,
      others,
    )

-- What `reset` sets the descriptor for.
abbrev armed_by : Option ℕ → Option ℕ → Option ℕ
armed_by none old = old
armed_by (some w) old = if ltb 0 w then some w else old

armed_by-SetFor :
    (q : TimerQueue) (es : List Entry) (first old : Option ℕ)
    → All (Dated q.heap) es
    → IsOrdered es
    → earliest q es ≡ some first
    → SetFor (armed_by first old) es
armed_by-SetFor q [] first old d o begin = SetFor-nil (armed_by first old)
armed_by-SetFor q (e ∷ es) first old d o begin =
    rw (earliest-first q e es first d begin, lt→ltb 0 e.when o.1.0) (omega arith, o.0.0)

abbrev Resets : TimerQueue → Type 0
Resets q = Ordered q × (All (Dated q.heap) q.timers → IsArmed q)

reset_end :
    (q : TimerQueue) (first : Option ℕ)
    → Ordered q
    → earliest q q.timers ≡ some first
    → Resets (elim first [ none ↦ q | some w ↦ if ltb 0 w then arm w q else q ])
reset_end q none o begin = (o, λ d. armed_by-SetFor q q.timers none q.armed d o begin)
reset_end q (some w) o begin = elim (Bool-cases (ltb 0 w)) [
  | inl valid ↦ rw valid (o, λ d. set true valid d)
  | inr invalid ↦ rw invalid (o, λ d. set false invalid d)
]
  where
    set :
        (b : Bool)
        → ltb 0 w ≡ b
        → All (Dated q.heap) q.timers
        → SetFor (if b then some w else q.armed) q.timers
    set b e d =
        subst (λ c. SetFor (if c then some w else q.armed) q.timers) e
          (armed_by-SetFor q q.timers (some w) q.armed d o begin)

reset-Resets :
    (now : ℕ) (es : List Entry) (q : TimerQueue)
    → 0 < now
    → Ordered q
    → Post Resets (reset now es q)
unfolding reset
reset-Resets now es q h o = Post->>= (reset_all now es q) (reset_all-Ordered now es q h o) λ q' o'.
    Post->>= (earliest q' q'.timers) (kept (earliest q' q'.timers))
      λ first begin. gives (reset_end q' first o' begin)

expired-Ordered :
    (now : ℕ) (q : TimerQueue) → Ordered q → Post (λ r. Ordered r.1) (get_expired now q)
unfolding get_expired
expired-Ordered now q o =
    let (early, late, o₁) = split_expired-IsOrdered now q.timers o in
    Post->>= (erase_all (split_expired now q.timers).0 q.active_timers) (any _) λ active h.
      let q' : TimerQueue = record q {
        timers = (split_expired now q.timers).1;
        active_timers = active;
      } in
      let b : Bool = length q'.timers == length active in
      Post->>= (assert b q') (assert-same b q') (λ q'' same. gives (subst Ordered (sym same) o₁))

handle_read-Resets :
    (now later : ℕ) (callback : ℕ → List Call) (q : TimerQueue)
    → 0 < later
    → ((p : ℕ) → All HasTime (callback p))
    → Ordered q
    → Post Resets (handle_read now later callback q)
unfolding handle_read
handle_read-Resets now later callback q h times o =
    Post->>= (get_expired now q) (expired-Ordered now q o) λ (expired, q₁) o₁.
      Post->>=
        (run_all callback expired (record q₁ { calling_expired_timers = true; cancel_timers = [] }))
        (run_all-Ordered callback expired _ times o₁)
        (λ q₂ o₂. reset-Resets later expired (record q₂ { calling_expired_timers = false }) h o₂)

-- A round of a consistent queue in the order of the times takes out the timers that are due and no other,
-- runs their callbacks, fails no assertion and uses no deleted timer, and leaves the queue consistent, in
-- order, and its descriptor set for no later than any timer that waits then, whatever it was set for
-- before. Behind the callbacks a timer waits exactly if it waited then, or if it ran out in this round
-- and repeats, also where its callback cancelled it. The second reading of the clock must
-- be a valid time, and each new timer must have a valid time and an address that is not in use.
pub handle_read-IsTimely :
    (now later : ℕ) (callback : ℕ → List Call) (q : TimerQueue)
    → 0 < later
    → ((p : ℕ) → All HasTime (callback p))
    → IsConsistent q
    → Ordered q
    → ((left : List ℕ)
        → erase_all (split_expired now q.timers).0 q.active_timers ≡ some left
        → RunsFresh callback (split_expired now q.timers).0 (ringing now q left))
    → (left : List ℕ) × (q₂ : TimerQueue) × (q' : TimerQueue) × (handle_read now later callback q
        ≡ some q')
      × (run_all callback (split_expired now q.timers).0 (ringing now q left) ≡ some q₂)
      × IsTimely q'
      × ((j : ℕ) → has j q'.active_timers ≡ waits_again q₂ (split_expired now q.timers).0 j)
      × All (λ e. e.when ≤ now) (split_expired now q.timers).0
      × All (λ e. now < e.when) (split_expired now q.timers).1
handle_read-IsTimely now later callback q h times v o fresh =
    let (left, q₂, q', e, gone, ran, v', waits) =
      handle_read-IsConsistent now later callback q v fresh in
    let (early, late, o₁) = split_expired-IsOrdered now q.timers o in
    let (o', armed) =
      Post-some (subst (Post Resets) e (handle_read-Resets now later callback q h times o)) in
    (
      left,
      q₂,
      q',
      e,
      ran,
      record { consistent = v'; ordered = o'; armed = armed v'.dated },
      waits,
      early,
      late,
    )
