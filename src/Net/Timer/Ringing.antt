-- ===== src/Net/Timer/Ringing.antt =====
-- The callbacks of the timers that run out, in net/src/timer.cpp: what the calls that they make of the
-- queue leave of these timers.
use qinyunserver.Base.{
  ℕ, ◌≡◌, refl, sym, ap, ◌∙◌, true, false, Option, none, some, List, [], ◌∷◌, ◌==◌, arith, All,
  Bool-cases, inl, inr,
}
use qinyunserver.Net.Timer.{
  Timer, Entry, TimerQueue, has, Call, adds, cancels, do_call, do_calls, run_all,
}
use qinyunserver.Net.Timer.Entries.{has_timer, Unique, Dated}
use qinyunserver.Net.Timer.Sets.{IsConsistent, Dated-has_timer}
use qinyunserver.Net.Timer.Consistent.{takes, waits_after, IsLegal, do_call-IsConsistent}

-- The entries of timers that ran out: they are not deleted and do not wait.
pub record Holds (q : TimerQueue) (es : List Entry) : Type 0 where
  pub dated : All (Dated q.heap) es
  pub unique : Unique es
  pub away : (j : ℕ) → has_timer j es ≡ true → has j q.active_timers ≡ false

-- `new` gives an address that is not in use.
abbrev pub IsFresh : Call → TimerQueue → Type 0
IsFresh (adds p sequence when interval) q = q.heap p ≡ none
IsFresh (cancels p) q = Unit {0}

abbrev pub AreFresh : List Call → TimerQueue → Type 0
AreFresh [] q = Unit {0}
AreFresh (c ∷ cs) q = IsFresh c q × ((q' : TimerQueue) → do_call c q ≡ some q' → AreFresh cs q')

abbrev pub RunsFresh : (ℕ → List Call) → List Entry → TimerQueue → Type 0
RunsFresh callback [] q = Unit {0}
RunsFresh callback (e ∷ es) q =
    AreFresh (callback e.timer) q
    × ((q' : TimerQueue) → do_calls (callback e.timer) q ≡ some q' → RunsFresh callback es q')

Dated-has :
    (q : TimerQueue) (p : ℕ) (es : List Entry)
    → All (Dated q.heap) es
    → q.heap p ≡ none
    → has_timer p es ≡ false
Dated-has q p [] all free = refl
Dated-has q p (e ∷ es) ((t, f, w), all) free = elim (Bool-cases (p == e.timer)) [
  | inl same ↦ absurd (none≢some (sym free ∙ ap q.heap (==→≡ same) ∙ f))
  | inr other ↦ rw other (Dated-has q p es all free)
]
  where
    none≢some : none ≡ some t → ⊥
    none≢some h = cc

    ==→≡ : (p == e.timer) ≡ true → p ≡ e.timer
    ==→≡ h = ground arith

IsFresh-IsLegal : (c : Call) (q : TimerQueue) → IsConsistent q → IsFresh c q → IsLegal c q
IsFresh-IsLegal (adds p sequence when interval) q v free =
    v.same_timers p ∙ Dated-has q p q.timers v.dated free
IsFresh-IsLegal (cancels p) q v free = tt

takes-has_timer :
    (c : Call) (q : TimerQueue) (es : List Entry) (j : ℕ)
    → IsFresh c q
    → All (Dated q.heap) es
    → has_timer j es ≡ true
    → takes c j ≡ false
takes-has_timer (adds p sequence when interval) q es j free all h = elim (Bool-cases (j == p)) [
  | inl same ↦ absurd (
      false≢true (sym (Dated-has q p es all free) ∙ ap (λ k. has_timer k es) (sym (==→≡ same)) ∙ h))
  | inr other ↦ other
]
  where
    false≢true : false ≡ true → ⊥
    false≢true k = cc

    ==→≡ : (j == p) ≡ true → j ≡ p
    ==→≡ k = ground arith
takes-has_timer (cancels p) q es j free all h = refl

waits_after-away :
    (c : Call) (q : TimerQueue) (j : ℕ)
    → takes c j ≡ false
    → has j q.active_timers ≡ false
    → waits_after c q j ≡ false
waits_after-away (adds p sequence when interval) q j h k = rw (h, k) refl
waits_after-away (cancels p) q j h k = ground (arith, k)

Dated-same :
    (heap heap' : ℕ → Option Timer) (es : List Entry)
    → ((j : ℕ) → has_timer j es ≡ true → heap' j ≡ heap j)
    → All (Dated heap) es
    → All (Dated heap') es
Dated-same heap heap' [] same all = tt
Dated-same heap heap' (e ∷ es) same ((t, f, w), all) = (
  (t, same e.timer (ground arith) ∙ f, w),
  Dated-same heap heap' es (λ j h. same j (ground arith)) all,
)

-- What holds of the queue and of the timers that ran out holds behind calls too.
unfoldable pub Goes : (TimerQueue → Option TimerQueue) → TimerQueue → List Entry → Type 0
Goes m q es = (q' : TimerQueue) × (m q ≡ some q') × IsConsistent q' × Holds q' es

do_call-Goes :
    (c : Call) (q : TimerQueue) (es : List Entry)
    → IsConsistent q
    → Holds q es
    → IsFresh c q
    → Goes (do_call c) q es
unfolding Goes
do_call-Goes c q es v h free =
    let (q', e, v', waits, keeps) = do_call-IsConsistent c q v (IsFresh-IsLegal c q v free) in
    (
      q',
      e,
      v',
      record {
        dated =
            Dated-same q.heap q'.heap es
              (λ j k. keeps j (h.away j k) (takes-has_timer c q es j free h.dated k)) h.dated;
        unique = h.unique;
        away = λ j k.
            waits j ∙ waits_after-away c q j (takes-has_timer c q es j free h.dated k) (h.away j k);
      },
    )

do_calls-Goes :
    (cs : List Call) (q : TimerQueue) (es : List Entry)
    → IsConsistent q
    → Holds q es
    → AreFresh cs q
    → Goes (do_calls cs) q es
unfolding Goes do_calls
do_calls-Goes [] q es v h free = (q, refl, v, h)
do_calls-Goes (c ∷ cs) q es v h (free, later) =
    let (q₁, e, v₁, h₁) = do_call-Goes c q es v h free in
    let (q₂, f, v₂, h₂) = do_calls-Goes cs q₁ es v₁ h₁ (later q₁ e) in (q₂, rw e f, v₂, h₂)

pub run_all-Goes :
    (callback : ℕ → List Call) (xs : List Entry) (q : TimerQueue) (es : List Entry)
    → ((j : ℕ) → has_timer j xs ≡ true → has_timer j es ≡ true)
    → IsConsistent q
    → Holds q es
    → RunsFresh callback xs q
    → Goes (run_all callback xs) q es
unfolding Goes run_all
run_all-Goes callback [] q es within v h free = (q, refl, v, h)
run_all-Goes callback (x ∷ xs) q es within v h (free, later) =
    let (t, f) = Dated-has_timer q.heap x.timer es (within x.timer (ground arith)) h.dated in
    let (q₁, e, v₁, h₁) = do_calls-Goes (callback x.timer) q es v h free in
    let (q₂, g, v₂, h₂) =
      run_all-Goes callback xs q₁ es (λ j k. within j (ground arith)) v₁ h₁ (later q₁ e) in
    (q₂, rw (f, e) g, v₂, h₂)
