-- ===== src/Net/Timer/Deadline.antt =====
-- The descriptor of net/src/timer.cpp behind a call of the queue: it is set for no later than any timer
-- that waits.
use qinyunserver.Base.{
  ℕ, ◌≤◌, ◌≡◌, refl, sym, ap, ◌∙◌, subst, Bool, true, false, ◌||◌, Option, none, some, List, [],
  ◌∷◌, ◌==◌, if◌then◌else◌, length, arith, All, Bool-cases, inl, inr,
}
use qinyunserver.Net.Buffer.{◌>>=◌}
use qinyunserver.Net.Poller.{update_at}
use qinyunserver.Net.Timer.{
  Timer, Entry, TimerQueue, insert_entry, erase_entry, has, erase, has_entry, earliest, earlier,
  assert, insert, add_timer_in_loop, cancel_timer_in_loop,
}
use qinyunserver.Net.Timer.Entries.{Dated, All-insert_entry}
use qinyunserver.Net.Timer.Order.{IsOrdered, Ordered, All-erase_entry, All-trans}
use qinyunserver.Net.Outcome.{Post, nothing, gives, Post->>=, Post-if, any, kept}

abbrev pub SetFor : Option ℕ → List Entry → Type 0
SetFor none es = All (λ e. ⊥) es
SetFor (some a) es = All (λ e. a ≤ e.when) es

abbrev pub IsArmed : TimerQueue → Type 0
IsArmed q = SetFor q.armed q.timers

pub SetFor-nil : (armed : Option ℕ) → SetFor armed []
SetFor-nil none = tt
SetFor-nil (some a) = tt

SetFor-erase_entry :
    (armed : Option ℕ) (e : Entry) (es : List Entry)
    → SetFor armed es
    → SetFor armed (erase_entry e es)
SetFor-erase_entry none e es h = All-erase_entry (λ e. ⊥) e es h
SetFor-erase_entry (some a) e es h = All-erase_entry (λ e. a ≤ e.when) e es h

-- What `insert` does where it fails no assertion.
record Inserted (p : ℕ) (q : TimerQueue) (r : Bool × TimerQueue) : Type 0 where
  timer : Timer
  first : Option ℕ
  found : q.heap p ≡ some timer
  begin : earliest q q.timers ≡ some first
  changed : r.0 ≡ earlier timer.expired first
  pub heap : r.1.heap ≡ q.heap
  pub timers : r.1.timers ≡ insert_entry (record { when = timer.expired; timer = p }) q.timers
  pub armed : r.1.armed ≡ q.armed

pub assert-same : (b : Bool) (q : TimerQueue) → Post (λ q'. q' ≡ q) (assert b q)
assert-same true q = gives refl
assert-same false q = nothing

insert-Inserted : (p : ℕ) (q : TimerQueue) → Post (Inserted p q) (insert p q)
unfolding insert
insert-Inserted p q = Post->>= (q.heap p) (kept (q.heap p)) λ t found.
    Post->>= (earliest q q.timers) (kept (earliest q q.timers)) λ first begin.
      let q' : TimerQueue = record q {
        timers = insert_entry (record { when = t.expired; timer = p }) q.timers;
        active_timers = p ∷ q.active_timers;
      } in
      let b : Bool = length q'.timers == length q'.active_timers in
      Post-if (has_entry (record { when = t.expired; timer = p }) q.timers || has p q.active_timers)
        nothing
        (Post->>= (assert b q') (assert-same b q') λ q'' same. gives (record {
          timer = t;
          first = first;
          found = found;
          begin = begin;
          changed = refl;
          heap = ap (λ x. x.heap) same;
          timers = ap (λ x. x.timers) same;
          armed = ap (λ x. x.armed) same;
        }))

-- The first time of a set in order.
pub earliest-first :
    (q : TimerQueue) (e : Entry) (es : List Entry) (first : Option ℕ)
    → All (Dated q.heap) (e ∷ es)
    → earliest q (e ∷ es) ≡ some first
    → first ≡ some e.when
unfolding earliest
earliest-first q e es first ((t, f, w), all) h = ground (arith, f, w, h)

earliest-nil : (q : TimerQueue) (first : Option ℕ) → earliest q [] ≡ some first → first ≡ none
unfolding earliest
earliest-nil q first h = cc

-- A timer that is earlier than the first one of the set is earlier than all.
earlier-All :
    (q : TimerQueue) (es : List Entry) (w : ℕ) (first : Option ℕ)
    → All (Dated q.heap) es
    → IsOrdered es
    → earliest q es ≡ some first
    → earlier w first ≡ true
    → All (λ e. w ≤ e.when) es
earlier-All q [] w first d o begin h = tt
earlier-All q (e ∷ es) w first d o begin h =
    let lt : w ≤ e.when = ground (arith, earliest-first q e es first d begin) in
    (lt, All-trans w e.when es lt o.0.0)

later-SetFor :
    (q : TimerQueue) (es : List Entry) (new : Entry) (armed first : Option ℕ)
    → All (Dated q.heap) es
    → earliest q es ≡ some first
    → earlier new.when first ≡ false
    → SetFor armed es
    → SetFor armed (insert_entry new es)
later-SetFor q [] new armed first d begin h a = absurd (ground (arith, earliest-nil q first begin))
later-SetFor q (e ∷ es) new none first d begin h a = absurd a.0
later-SetFor q (e ∷ es) new (some w) first d begin h a =
    All-insert_entry (λ x. w ≤ x.when) new (e ∷ es)
      (ground (arith, earliest-first q e es first d begin, a.0)) a

pub add_timer_in_loop-IsArmed :
    (p : ℕ) (q : TimerQueue)
    → All (Dated q.heap) q.timers
    → Ordered q
    → IsArmed q
    → Post IsArmed (add_timer_in_loop p q)
unfolding add_timer_in_loop
add_timer_in_loop-IsArmed p q d o a = Post->>= (insert p q) (insert-Inserted p q) λ (changed, q') i.
    let new : Entry = record { when = i.timer.expired; timer = p } in
    elim (Bool-cases changed) [
      | inl first ↦ rw first (
          Post->>= (q'.heap p) (kept (q'.heap p)) λ t found.
            let same : i.timer ≡ t = ground (arith, i.found, i.heap) in
            let all : All (λ e. i.timer.expired ≤ e.when) (insert_entry new q.timers) =
              All-insert_entry (λ e. i.timer.expired ≤ e.when) new q.timers (omega arith)
                (earlier-All q q.timers i.timer.expired i.first d o i.begin
                  (sym i.changed ∙ first)) in
            gives (
              subst (λ s. All (λ e. s.expired ≤ e.when) q'.timers) same
                (subst (All (λ e. i.timer.expired ≤ e.when)) (sym i.timers) all)))
      | inr later ↦ rw later (
          gives (
            subst (λ s. SetFor s q'.timers) (sym i.armed)
              (subst (SetFor q.armed) (sym i.timers)
                (later-SetFor q q.timers new q.armed i.first d i.begin (sym i.changed ∙ later) a))))
    ]

cancelled-IsArmed :
    (p : ℕ) (q : TimerQueue)
    → IsArmed q
    → Post IsArmed (
        if has p q.active_timers
        then (q.heap p >>= λ t. some (record q {
          timers = erase_entry (record { when = t.expired; timer = p }) q.timers;
          active_timers = erase p q.active_timers;
          heap = update_at q.heap p none;
        }))
        else if q.calling_expired_timers
        then some (record q { cancel_timers = p ∷ q.cancel_timers })
        else some q)
cancelled-IsArmed p q a =
    Post-if (has p q.active_timers)
      (Post->>= (q.heap p) (any (q.heap p)) λ t k.
        gives (SetFor-erase_entry q.armed (record { when = t.expired; timer = p }) q.timers a))
      (Post-if q.calling_expired_timers (gives a) (gives a))

pub cancel_timer_in_loop-IsArmed :
    (p : ℕ) (q : TimerQueue) → IsArmed q → Post IsArmed (cancel_timer_in_loop p q)
unfolding cancel_timer_in_loop
cancel_timer_in_loop-IsArmed p q a =
    let b : Bool = length q.timers == length q.active_timers in
    Post->>= (assert b q) (assert-same b q) λ q₁ same.
      Post->>= _ (cancelled-IsArmed p q₁ (subst IsArmed (sym same) a))
        λ q₂ h. let b₂ : Bool = length q₂.timers == length q₂.active_timers in subst-same b₂ q₂ h
  where
    subst-same : (b : Bool) (q₂ : TimerQueue) → IsArmed q₂ → Post IsArmed (assert b q₂)
    subst-same true q₂ h = gives h
    subst-same false q₂ h = nothing
