-- ===== src/Net/Timer/Repeats.antt =====
-- `TimerQueue::reset` of net/src/timer.cpp: the timers that repeat wait again.
use qinyunserver.Base.{
  ℕ, ◌≡◌, refl, sym, ap, ◌∙◌, Bool, true, false, ◌&&◌, ◌||◌, Option, none, some, List, [], ◌∷◌,
  ◌==◌, if◌then◌else◌, arith, Bool-cases, Option-cases, inl, inr, eq→==, ltb,
}
use qinyunserver.Net.Buffer.{◌>>=◌}
use qinyunserver.Net.Poller.{update_at}
use qinyunserver.Net.Timer.{Timer, Entry, TimerQueue, has, insert, arm, restart, reset_all, reset}
use qinyunserver.Net.Timer.Entries.{has_timer}
use qinyunserver.Net.Timer.Sets.{
  IsConsistent, heap-IsConsistent, Dated-update_at, earliest-Dated, insert_lem, inserted,
  inserted-IsConsistent, arm-IsConsistent,
}
use qinyunserver.Net.Timer.Ringing.{Holds}

-- A timer that repeats.
abbrev pub repeated_in : Option Timer → Bool
repeated_in none = false
repeated_in (some t) = t.repeated

abbrev pub repeats : (ℕ → Option Timer) → ℕ → Bool
repeats heap j = repeated_in (heap j)

-- What waits behind `reset`: what waited, and what ran out and repeats.
abbrev pub waits_again : TimerQueue → List Entry → ℕ → Bool
waits_again q es j = has j q.active_timers || (has_timer j es && repeats q.heap j)

unfoldable pub Resets : (TimerQueue → Option TimerQueue) → TimerQueue → List Entry → Type 0
Resets m q es =
    (q' : TimerQueue) × (m q ≡ some q')
    × IsConsistent q'
    × ((j : ℕ) → has j q'.active_timers ≡ waits_again q es j)

module _ (e : Entry) (es : List Entry) (q : TimerQueue) (h : Holds q (e ∷ es)) (t : Timer)
    (found : q.heap e.timer ≡ some t) where
  away : has e.timer q.active_timers ≡ false
  away = h.away e.timer (ground arith)

  -- The others that ran out, behind a change of this one.
  Holds-rest :
      (v : Option Timer) (active : List ℕ) (timers : List Entry)
      → ((j : ℕ) → has_timer j es ≡ true → has j active ≡ false)
      → Holds
          (record q { heap = update_at q.heap e.timer v; active_timers = active; timers = timers })
          es
  Holds-rest v active timers k = record {
    dated = Dated-update_at q.heap e.timer v es h.unique.0 h.dated.1;
    unique = h.unique.1;
    away = k;
  }

  differs : (j : ℕ) → has_timer j es ≡ true → (j == e.timer) ≡ false
  differs j k = elim (Bool-cases (j == e.timer)) [
    | inl same ↦
        absurd (false≢true (sym h.unique.0 ∙ ap (λ i. has_timer i es) (sym (==→≡ same)) ∙ k))
    | inr other ↦ other
  ]
    where
      false≢true : false ≡ true → ⊥
      false≢true x = cc

      ==→≡ : (j == e.timer) ≡ true → j ≡ e.timer
      ==→≡ x = ground arith

  repeats-here : (j : ℕ) → (j == e.timer) ≡ true → repeats q.heap j ≡ t.repeated
  repeats-here j same = ap repeated_in (ap q.heap (==→≡ same) ∙ found)
    where
      ==→≡ : (j == e.timer) ≡ true → j ≡ e.timer
      ==→≡ x = ground arith

  absent-here :
      (j : ℕ) → (j == e.timer) ≡ true → (has j q.active_timers ≡ false) × (has_timer j es ≡ false)
  absent-here j same = (
    ap (λ i. has i q.active_timers) (==→≡ same) ∙ away,
    ap (λ i. has_timer i es) (==→≡ same) ∙ h.unique.0,
  )
    where
      ==→≡ : (j == e.timer) ≡ true → j ≡ e.timer
      ==→≡ x = ground arith

reset_step :
    (now : ℕ) (e : Entry) (es : List Entry) (q q₂ : TimerQueue) (t : Timer) (changed : Bool)
    → q.heap e.timer ≡ some t
    → t.repeated ≡ true
    → insert e.timer (record q { heap = update_at q.heap e.timer (some (restart now t)) })
      ≡ some (changed, q₂)
    → reset_all now (e ∷ es) q ≡ reset_all now es q₂
unfolding reset_all
reset_step now e es q q₂ t changed found again f =
    ap (λ m. m >>= next) found
    ∙ ap (λ b. (if b then kept else gone) >>= λ q'. reset_all now es q') again
    ∙ ap (λ m. (m >>= λ (c, q'). some q') >>= λ q'. reset_all now es q') f
  where
    kept : Option TimerQueue
    kept =
        insert e.timer (record q { heap = update_at q.heap e.timer (some (restart now t)) })
        >>= λ (c, q'). some q'

    gone : Option TimerQueue
    gone = some (record q { heap = update_at q.heap e.timer none })

    next : Timer → Option TimerQueue
    next u =
        (if u.repeated
          then (insert e.timer (record q { heap = update_at q.heap e.timer (some (restart now u)) })
              >>= λ (c, q'). some q')
          else some (record q { heap = update_at q.heap e.timer none }))
        >>= λ q'. reset_all now es q'

reset_all-Resets :
    (now : ℕ) (es : List Entry) (q : TimerQueue)
    → IsConsistent q
    → Holds q es
    → Resets (reset_all now es) q es
unfolding Resets reset_all has
reset_all-Resets now [] q v h = (q, refl, v, λ j. ground arith)
reset_all-Resets now (e ∷ es) q v h =
    let ((t, found, w), all) = h.dated in
    let gone : has e.timer q.active_timers ≡ false = away e es q h t found in
    elim (Bool-cases t.repeated) [
      | inl again ↦
          let t' : Timer = restart now t in
          let q₁ : TimerQueue = record q { heap = update_at q.heap e.timer (some t') } in
          let v₁ : IsConsistent q₁ = heap-IsConsistent q e.timer (some t') gone v in
          let here : q₁.heap e.timer ≡ some t' = rw (eq→== e.timer e.timer refl) refl in
          let (changed, f) = insert_lem q₁ v₁ e.timer t' here gone in
          let (q₂, g, v₂, waits) =
            reset_all-Resets now es (inserted q₁ v₁ e.timer t' here gone)
              (inserted-IsConsistent q₁ v₁ e.timer t' here gone)
              (Holds-rest e es q h t found (some t') _ _
                (λ j k. rw (differs e es q h t found j k) (h.away j (ground (arith, k))))) in
          (
            q₂,
            reset_step now e es q _ t changed found again f ∙ g,
            v₂,
            λ j. waits j ∙ elim (Bool-cases (j == e.timer)) [
              | inl same ↦
                  rw
                    (
                      same,
                      repeats-here e es q h t found j same,
                      again,
                      (absent-here e es q h t found j same).0,
                    )
                    refl
              | inr other ↦ rw other refl
            ],
          )
      | inr once ↦
          let q₁ : TimerQueue = record q { heap = update_at q.heap e.timer none } in
          let (q₂, g, v₂, waits) =
            reset_all-Resets now es q₁ (heap-IsConsistent q e.timer none gone v)
              (Holds-rest e es q h t found none _ _ (λ j k. h.away j (ground (arith, k)))) in
          (
            q₂,
            rw (found, once) g,
            v₂,
            λ j. waits j ∙ elim (Bool-cases (j == e.timer)) [
              | inl same ↦
                  rw
                    (
                      same,
                      repeats-here e es q h t found j same,
                      once,
                      (absent-here e es q h t found j same).1,
                    )
                    refl
              | inr other ↦ rw other refl
            ],
          )
    ]

pub reset-Resets :
    (now : ℕ) (es : List Entry) (q : TimerQueue)
    → IsConsistent q
    → Holds q es
    → Resets (reset now es) q es
unfolding Resets reset
reset-Resets now es q v h =
    let (q', e, v', waits) = reset_all-Resets now es q v h in
    let (first, f) = earliest-Dated q' q'.timers v'.dated in
    elim (Option-cases first) [
      | inl empty ↦ (q', rw (e, f, empty) refl, v', waits)
      | inr (w, some_first) ↦ elim (Bool-cases (ltb 0 w)) [
        | inl valid ↦ (arm w q', rw (e, f, some_first, valid) refl, arm-IsConsistent w q' v', waits)
        | inr invalid ↦ (q', rw (e, f, some_first, invalid) refl, v', waits)
      ]
    ]
