-- ===== src/Net/Timer/Consistent.antt =====
-- The two sets of timers of net/src/timer.cpp stay consistent, and no assertion on them fails.
use qinyunserver.Base.{
  ℕ, ◌≡◌, refl, sym, ap, ◌∙◌, Bool, true, false, not, ◌&&◌, ◌||◌, none, some, ◌∷◌, ◌==◌,
  if◌then◌else◌, length, arith, Bool-cases, inl, inr, eq→==,
}
use qinyunserver.Net.Poller.{update_at}
use qinyunserver.Net.Timer.{
  Timer, new_timer, Entry, TimerQueue, erase_entry, has, erase, add_timer, cancel_timer_in_loop,
  Call, adds, cancels, do_call,
}
use qinyunserver.Net.Timer.Entries.{
  has_timer, Dated, has_timer-erase_entry, Unique-erase_entry, length-erase_entry, All-erase_entry,
  has-erase, Distinct-erase, length-erase,
}
use qinyunserver.Net.Timer.Sets.{
  IsConsistent, heap-IsConsistent, Dated-update_at, Dated-has_timer, add_timer_in_loop_lem,
}

-- A handle of a new timer comes from `new`: no timer has its address.
abbrev pub IsLegal : Call → TimerQueue → Type 0
IsLegal (adds p sequence when interval) q = has p q.active_timers ≡ false
IsLegal (cancels p) q = Unit {0}

-- Which timers wait behind a call.
abbrev pub waits_after : Call → TimerQueue → ℕ → Bool
waits_after (adds p sequence when interval) q j = j == p || has j q.active_timers
waits_after (cancels p) q j = not (j == p) && has j q.active_timers

-- The address that a call takes for a new timer.
abbrev pub takes : Call → ℕ → Bool
takes (adds p sequence when interval) j = j == p
takes (cancels p) j = false

-- A timer that does not wait stays as it is.
abbrev pub KeepsOthers : Call → TimerQueue → TimerQueue → Type 0
KeepsOthers c q q' =
    (j : ℕ) → has j q.active_timers ≡ false → takes c j ≡ false → q'.heap j ≡ q.heap j

Result : Call → TimerQueue → Type 0
Result c q =
    (q' : TimerQueue) × (do_call c q ≡ some q')
    × IsConsistent q'
    × ((j : ℕ) → has j q'.active_timers ≡ waits_after c q j)
    × KeepsOthers c q q'

add_timer-Result :
    (p sequence when interval : ℕ) (q : TimerQueue)
    → IsConsistent q
    → has p q.active_timers ≡ false
    → Result (adds p sequence when interval) q
unfolding do_call add_timer has Result
add_timer-Result p sequence when interval q v new =
    let t : Timer = new_timer when interval sequence in
    let q₁ : TimerQueue = record q { heap = update_at q.heap p (some t) } in
    let v₁ : IsConsistent q₁ = heap-IsConsistent q p (some t) new v in
    let here : q₁.heap p ≡ some t = rw (eq→== p p refl) refl in
    let (q₂, e, v₂, a, h) = add_timer_in_loop_lem q₁ v₁ p t here new in
    (
      q₂,
      e,
      v₂,
      (λ j. ap (has j) a),
      λ j away other. ap (λ f. f j) h ∙ ap (λ b. if b then some t else q.heap j) other,
    )

module _ (q : TimerQueue) (v : IsConsistent q) (p : ℕ) where
  sizes : (length q.timers == length q.active_timers) ≡ true
  sizes = eq→== _ _ v.same_size

  apart : (j : ℕ) → has p q.active_timers ≡ true → has j q.active_timers ≡ false → (j == p) ≡ false
  apart j there away = elim (Bool-cases (j == p)) [
    | inl same ↦
        absurd (false≢true (sym away ∙ ap (λ k. has k q.active_timers) (==→≡ same) ∙ there))
    | inr other ↦ other
  ]
    where
      false≢true : false ≡ true → ⊥
      false≢true h = cc

      ==→≡ : (j == p) ≡ true → j ≡ p
      ==→≡ h = ground arith

  cancel_waiting : has p q.active_timers ≡ true → Result (cancels p) q
  unfolding do_call cancel_timer_in_loop Result
  cancel_waiting there =
      let listed : has_timer p q.timers ≡ true = sym (v.same_timers p) ∙ there in
      let (t, found) = Dated-has_timer q.heap p q.timers listed v.dated in
      let e : Entry = record { when = t.expired; timer = p } in
      let gone : has_timer p (erase_entry e q.timers) ≡ false =
        has_timer-erase_entry q.heap p t found p q.timers v.dated v.unique
        ∙ rw (eq→== p p refl) refl in
      let same : length (erase_entry e q.timers) ≡ length (erase p q.active_timers) = omega (
        arith,
        length-erase_entry q.heap p t found q.timers v.dated listed,
        length-erase p q.active_timers there,
        v.same_size,
      ) in
      (
        record q {
          timers = erase_entry e q.timers;
          active_timers = erase p q.active_timers;
          heap = update_at q.heap p none;
        },
        rw (sizes, there, found, eq→== _ _ same) refl,
        record {
          same_size = same;
          same_timers = λ j.
              has-erase p j q.active_timers v.distinct
              ∙ ap (λ b. not (j == p) && b) (v.same_timers j)
              ∙ sym (has_timer-erase_entry q.heap p t found j q.timers v.dated v.unique);
          dated =
              Dated-update_at q.heap p none _ gone
                (All-erase_entry q.heap p t found (Dated q.heap) q.timers v.dated);
          unique = Unique-erase_entry q.heap p t found q.timers v.dated v.unique;
          distinct = Distinct-erase p q.active_timers v.distinct;
        },
        (λ j. has-erase p j q.active_timers v.distinct),
        λ j away other. ap (λ b. if b then none else q.heap j) (apart j there away),
      )

  not_there :
      (j : ℕ)
      → has p q.active_timers ≡ false
      → has j q.active_timers ≡ (not (j == p) && has j q.active_timers)
  not_there j away = elim (Bool-cases (j == p)) [
    | inl same ↦ rw same (ap (λ k. has k q.active_timers) (ground arith) ∙ away)
    | inr other ↦ rw other refl
  ]

  cancel_other : has p q.active_timers ≡ false → Result (cancels p) q
  unfolding do_call cancel_timer_in_loop Result
  cancel_other away = elim (Bool-cases q.calling_expired_timers) [
    | inl calling ↦ (
      record q { cancel_timers = p ∷ q.cancel_timers },
      rw (sizes, away, calling, sizes) refl,
      record {
        same_size = v.same_size;
        same_timers = v.same_timers;
        dated = v.dated;
        unique = v.unique;
        distinct = v.distinct;
      },
      (λ j. not_there j away),
      λ j k other. refl,
    )
    | inr idle ↦
        (q, rw (sizes, away, idle, sizes) refl, v, (λ j. not_there j away), λ j k other. refl)
  ]

-- A call of the queue of timers in its loop's thread fails no assertion and uses no deleted timer: adding
-- a timer whose address no waiting one has, or cancelling any. The two sets stay consistent, and the
-- timers that wait are those that waited, with the new one or without the cancelled one; what does not
-- wait, as a timer that is being called, is left alone.
pub do_call-IsConsistent :
    (c : Call) (q : TimerQueue)
    → IsConsistent q
    → IsLegal c q
    → (q' : TimerQueue) × (do_call c q ≡ some q')
      × IsConsistent q'
      × ((j : ℕ) → has j q'.active_timers ≡ waits_after c q j)
      × KeepsOthers c q q'
unfolding Result
do_call-IsConsistent (adds p sequence when interval) q v new =
    add_timer-Result p sequence when interval q v new
do_call-IsConsistent (cancels p) q v legal = elim (Bool-cases (has p q.active_timers)) [
  | inl there ↦ cancel_waiting q v p there
  | inr away ↦ cancel_other q v p away
]
