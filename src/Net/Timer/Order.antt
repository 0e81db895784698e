-- ===== src/Net/Timer/Order.antt =====
-- The set of timers of net/src/timer.cpp stays in the order of the times.
use qinyunserver.Base.{
  ℕ, ◌≤◌, ◌<◌, refl, Bool, true, false, ◌||◌, none, some, List, [], ◌∷◌, ◌==◌, leb, if◌then◌else◌,
  length, arith, All, Bool-cases, eq→==, inl, inr,
}
use qinyunserver.Net.Buffer.{◌>>=◌}
use qinyunserver.Net.Poller.{update_at}
use qinyunserver.Net.Timer.{
  new_timer, restart, Entry, TimerQueue, before, same_entry, insert_entry, erase_entry, has,
  earliest, assert, erase, insert, add_timer_in_loop, add_timer, cancel_timer_in_loop, Call, adds,
  cancels, do_call, do_calls, split_expired, run_all, reset_all, has_entry,
}
use qinyunserver.Net.Timer.Entries.{All-insert_entry}
use qinyunserver.Net.Outcome.{Post, nothing, gives, Post->>=, Post-if, any}

abbrev pub IsSorted : List Entry → Type 0
IsSorted [] = Unit {0}
IsSorted (e ∷ es) = All (λ x. e.when ≤ x.when) es × IsSorted es

-- The times rise, and each is one that `Timestamp::valid` takes.
abbrev pub IsOrdered : List Entry → Type 0
IsOrdered es = IsSorted es × All (λ x. 0 < x.when) es

pub All-trans :
    (a b : ℕ) (es : List Entry) → a ≤ b → All (λ x. b ≤ x.when) es → All (λ x. a ≤ x.when) es
All-trans a b [] h all = tt
All-trans a b (e ∷ es) h all = (omega (arith, all.0), All-trans a b es h all.1)

insert_entry-IsSorted : (e : Entry) (es : List Entry) → IsSorted es → IsSorted (insert_entry e es)
unfolding insert_entry
insert_entry-IsSorted e [] s = (tt, tt)
insert_entry-IsSorted e (x ∷ es) s = elim (Bool-cases (before e x)) [
  | inl first ↦ rw first ((ground arith, All-trans e.when x.when es (ground arith) s.0), s)
  | inr later ↦ elim (Bool-cases (same_entry e x)) [
    | inl same ↦ rw (later, same) s
    | inr other ↦
        rw (later, other)
          (
            All-insert_entry (λ y. x.when ≤ y.when) e es (ground arith) s.0,
            insert_entry-IsSorted e es s.1,
          )
  ]
]

pub All-erase_entry :
    (P : Entry → Type 0) (e : Entry) (es : List Entry) → All P es → All P (erase_entry e es)
unfolding erase_entry
All-erase_entry P e [] all = tt
All-erase_entry P e (x ∷ es) all = elim (Bool-cases (same_entry e x)) [
  | inl same ↦ rw same all.1
  | inr other ↦ rw other (all.0, All-erase_entry P e es all.1)
]

erase_entry-IsSorted : (e : Entry) (es : List Entry) → IsSorted es → IsSorted (erase_entry e es)
unfolding erase_entry
erase_entry-IsSorted e [] s = tt
erase_entry-IsSorted e (x ∷ es) s = elim (Bool-cases (same_entry e x)) [
  | inl same ↦ rw same s.1
  | inr other ↦ rw other (All-erase_entry _ e es s.0, erase_entry-IsSorted e es s.1)
]

above :
    (now : ℕ) (e : Entry) (es : List Entry)
    → now < e.when
    → All (λ x. e.when ≤ x.when) es
    → All (λ x. now < x.when) es
above now e [] h all = tt
above now e (x ∷ es) h all = (omega (arith, all.0), above now e es h all.1)

-- The timers up to `now` stand in front.
pub split_expired-IsOrdered :
    (now : ℕ) (es : List Entry)
    → IsOrdered es
    → All (λ x. x.when ≤ now) (split_expired now es).0
      × All (λ x. now < x.when) (split_expired now es).1
      × IsOrdered (split_expired now es).1
unfolding split_expired
split_expired-IsOrdered now [] o = (tt, tt, o)
split_expired-IsOrdered now (e ∷ es) (s, v) = elim (Bool-cases (leb e.when now)) [
  | inl due ↦
      let (early, late, o) = split_expired-IsOrdered now es (s.1, v.1) in
      rw due ((ground arith, early), late, o)
  | inr waits ↦ rw waits (tt, (ground arith, above now e es (ground arith) s.0), (s, v))
]

abbrev pub Ordered : TimerQueue → Type 0
Ordered q = IsOrdered q.timers

-- Each timer that a callback adds has a valid time.
abbrev pub HasTime : Call → Type 0
HasTime (adds p sequence when interval) = 0 < when
HasTime (cancels p) = Unit {0}

Post-assert : (b : Bool) (q : TimerQueue) → Ordered q → Post Ordered (assert b q)
Post-assert true q h = gives h
Post-assert false q h = nothing

-- The timer at an address has a valid time.
abbrev pub IsTimed : ℕ → TimerQueue → Type 0
IsTimed p q = Post (λ t. 0 < t.expired) (q.heap p)

insert-Ordered :
    (p : ℕ) (q : TimerQueue) → IsTimed p q → Ordered q → Post (λ r. Ordered r.1) (insert p q)
unfolding insert
insert-Ordered p q timed o = Post->>= (q.heap p) timed λ t valid.
    let e : Entry = record { when = t.expired; timer = p } in
    let q' : TimerQueue = record q {
      timers = insert_entry e q.timers;
      active_timers = p ∷ q.active_timers;
    } in
    let b : Bool = length q'.timers == length q'.active_timers in
    let o' : Ordered q' = (
      insert_entry-IsSorted e q.timers o.0,
      All-insert_entry (λ x. 0 < x.when) e q.timers valid o.1,
    ) in
    Post->>= (earliest q q.timers) (any (earliest q q.timers)) λ first h.
      Post-if (has_entry e q.timers || has p q.active_timers) nothing
        (Post->>= (assert b q') (Post-assert b q' o') (λ q'' h'. gives h'))

add_timer_in_loop-Ordered :
    (p : ℕ) (q : TimerQueue) → IsTimed p q → Ordered q → Post Ordered (add_timer_in_loop p q)
unfolding add_timer_in_loop
add_timer_in_loop-Ordered p q timed o =
    Post->>= (insert p q) (insert-Ordered p q timed o) λ (changed, q') h.
      Post-if changed (Post->>= (q'.heap p) (any (q'.heap p)) (λ t k. gives h)) (gives h)

cancelled-Ordered :
    (p : ℕ) (q : TimerQueue)
    → Ordered q
    → Post Ordered (
        if has p q.active_timers
        then (q.heap p >>= λ t. some (record q {
          timers = erase_entry (record { when = t.expired; timer = p }) q.timers;
          active_timers = erase p q.active_timers;
          heap = update_at q.heap p none;
        }))
        else if q.calling_expired_timers
        then some (record q { cancel_timers = p ∷ q.cancel_timers })
        else some q)
cancelled-Ordered p q o =
    Post-if (has p q.active_timers)
      (Post->>= (q.heap p) (any (q.heap p)) λ t k.
        let e : Entry = record { when = t.expired; timer = p } in
        let o' : IsOrdered (erase_entry e q.timers) =
          (erase_entry-IsSorted e q.timers o.0, All-erase_entry (λ x. 0 < x.when) e q.timers o.1) in
        gives o')
      (Post-if q.calling_expired_timers (gives o) (gives o))

cancel_timer_in_loop-Ordered :
    (p : ℕ) (q : TimerQueue) → Ordered q → Post Ordered (cancel_timer_in_loop p q)
unfolding cancel_timer_in_loop
cancel_timer_in_loop-Ordered p q o =
    let b : Bool = length q.timers == length q.active_timers in
    Post->>= (assert b q) (Post-assert b q o) λ q₁ h.
      Post->>= _ (cancelled-Ordered p q₁ h)
        (λ q₂ h'. Post-assert (length q₂.timers == length q₂.active_timers) q₂ h')

pub do_call-Ordered :
    (c : Call) (q : TimerQueue) → HasTime c → Ordered q → Post Ordered (do_call c q)
unfolding do_call add_timer new_timer
do_call-Ordered (adds p sequence when interval) q h o =
    add_timer_in_loop-Ordered p _ (rw (eq→== p p refl) (gives h)) o
do_call-Ordered (cancels p) q h o = cancel_timer_in_loop-Ordered p q o

do_calls-Ordered :
    (cs : List Call) (q : TimerQueue) → All HasTime cs → Ordered q → Post Ordered (do_calls cs q)
unfolding do_calls
do_calls-Ordered [] q h o = gives o
do_calls-Ordered (c ∷ cs) q h o =
    Post->>= (do_call c q) (do_call-Ordered c q h.0 o) (λ q' o'. do_calls-Ordered cs q' h.1 o')

pub run_all-Ordered :
    (callback : ℕ → List Call) (es : List Entry) (q : TimerQueue)
    → ((p : ℕ) → All HasTime (callback p))
    → Ordered q
    → Post Ordered (run_all callback es q)
unfolding run_all
run_all-Ordered callback [] q h o = gives o
run_all-Ordered callback (e ∷ es) q h o = Post->>= (q.heap e.timer) (any (q.heap e.timer)) λ t k.
    Post->>= (do_calls (callback e.timer) q) (do_calls-Ordered (callback e.timer) q (h e.timer) o)
      (λ q' o'. run_all-Ordered callback es q' h o')

pub reset_all-Ordered :
    (now : ℕ) (es : List Entry) (q : TimerQueue)
    → 0 < now
    → Ordered q
    → Post Ordered (reset_all now es q)
unfolding reset_all
reset_all-Ordered now [] q h o = gives o
reset_all-Ordered now (e ∷ es) q h o = Post->>= (q.heap e.timer) (any (q.heap e.timer)) λ t k.
    let q₁ : TimerQueue = record q { heap = update_at q.heap e.timer (some (restart now t)) } in
    let timed : IsTimed e.timer q₁ = rw (eq→== e.timer e.timer refl) (gives (omega arith)) in
    Post->>= _
      (Post-if t.repeated
        (Post->>= (insert e.timer q₁) (insert-Ordered e.timer q₁ timed o) (λ r h'. gives h'))
        (gives o))
      (λ q' o'. reset_all-Ordered now es q' h o')
