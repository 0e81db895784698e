-- ===== src/Net/Timer/Sets.antt =====
-- The two sets of timers of net/src/timer.cpp hold the same timers, also with a timer put into both.
use qinyunserver.Base.{
  ℕ, suc, ◌≡◌, refl, sym, ap, ◌∙◌, Bool, true, false, ◌||◌, Option, none, some, List, [], ◌∷◌, ◌==◌,
  length, arith, All, Bool-cases, inl, inr, eq→==,
}
use qinyunserver.Net.Poller.{update_at}
use qinyunserver.Net.Timer.{
  Timer, Entry, TimerQueue, insert_entry, has, earliest, earlier, insert, arm, add_timer_in_loop,
}
use qinyunserver.Net.Timer.Entries.{
  has_timer, Unique, Distinct, Dated, has_entry-has_timer, length-insert_entry,
  has_timer-insert_entry, All-insert_entry, Unique-insert_entry,
}

-- Both sets hold the same timers, none twice, and each entry has the time of its timer, which is not
-- deleted.
pub record IsConsistent (q : TimerQueue) : Type 0 where
  pub same_size : length q.timers ≡ length q.active_timers
  pub same_timers : (p : ℕ) → has p q.active_timers ≡ has_timer p q.timers
  pub dated : All (Dated q.heap) q.timers
  pub unique : Unique q.timers
  pub distinct : Distinct q.active_timers

pub Dated-update_at :
    (heap : ℕ → Option Timer) (p : ℕ) (v : Option Timer) (es : List Entry)
    → has_timer p es ≡ false
    → All (Dated heap) es
    → All (Dated (update_at heap p v)) es
Dated-update_at heap p v [] h all = tt
Dated-update_at heap p v (e ∷ es) h ((t, f, w), all) =
    ((t, ground (arith, f), w), Dated-update_at heap p v es (ground arith) all)

pub Dated-has_timer :
    (heap : ℕ → Option Timer) (p : ℕ) (es : List Entry)
    → has_timer p es ≡ true
    → All (Dated heap) es
    → (t : Timer) × (heap p ≡ some t)
Dated-has_timer heap p [] h all = absurd (cc)
Dated-has_timer heap p (e ∷ es) h ((t, f, w), all) = elim (Bool-cases (p == e.timer)) [
  | inl same ↦ (t, ap heap (ground arith) ∙ f)
  | inr other ↦ Dated-has_timer heap p es (ground arith) all
]

pub earliest-Dated :
    (q : TimerQueue) (es : List Entry)
    → All (Dated q.heap) es
    → (first : Option ℕ) × (earliest q es ≡ some first)
unfolding earliest
earliest-Dated q [] all = (none, refl)
earliest-Dated q (e ∷ es) ((t, f, w), all) = (some t.expired, rw f refl)

pub arm-IsConsistent : (w : ℕ) (q : TimerQueue) → IsConsistent q → IsConsistent (arm w q)
arm-IsConsistent w q v = record {
  same_size = v.same_size;
  same_timers = v.same_timers;
  dated = v.dated;
  unique = v.unique;
  distinct = v.distinct;
}

-- A timer that does not wait may be changed.
pub heap-IsConsistent :
    (q : TimerQueue) (p : ℕ) (t : Option Timer)
    → has p q.active_timers ≡ false
    → IsConsistent q
    → IsConsistent (record q { heap = update_at q.heap p t })
heap-IsConsistent q p t away v = record {
  same_size = v.same_size;
  same_timers = v.same_timers;
  dated = Dated-update_at q.heap p t q.timers (sym (v.same_timers p) ∙ away) v.dated;
  unique = v.unique;
  distinct = v.distinct;
}

module _ (q : TimerQueue) (v : IsConsistent q) (p : ℕ) (t : Timer) (found : q.heap p ≡ some t)
    (new : has p q.active_timers ≡ false) where
  abbrev pub entry : Entry
  entry = record { when = t.expired; timer = p }

  abbrev pub inserted : TimerQueue
  inserted = record q { timers = insert_entry entry q.timers; active_timers = p ∷ q.active_timers }

  absent : has_timer p q.timers ≡ false
  absent = sym (v.same_timers p) ∙ new

  fits : length (insert_entry entry q.timers) ≡ suc (length q.active_timers)
  fits =
      length-insert_entry entry q.timers (has_entry-has_timer entry q.timers absent)
      ∙ ap suc v.same_size

  pub inserted-IsConsistent : IsConsistent inserted
  unfolding has
  inserted-IsConsistent = record {
    same_size = fits;
    same_timers = λ j.
        ap (λ b. j == p || b) (v.same_timers j)
        ∙ sym (has_timer-insert_entry j entry q.timers (has_entry-has_timer entry q.timers absent));
    dated = All-insert_entry (Dated q.heap) entry q.timers (t, found, refl) v.dated;
    unique = Unique-insert_entry entry q.timers absent v.unique;
    distinct = (new, v.distinct);
  }

  pub insert_lem : (changed : Bool) × (insert p q ≡ some (changed, inserted))
  unfolding insert
  insert_lem =
      let (first, e) = earliest-Dated q q.timers v.dated in
      (
        earlier t.expired first,
        rw (found, e, has_entry-has_timer entry q.timers absent, new, eq→== _ _ fits) refl,
      )

  pub add_timer_in_loop_lem :
      (q' : TimerQueue) × (add_timer_in_loop p q ≡ some q')
      × IsConsistent q'
      × (q'.active_timers ≡ p ∷ q.active_timers)
      × (q'.heap ≡ q.heap)
  unfolding add_timer_in_loop
  add_timer_in_loop_lem =
      let (changed, e) = insert_lem in
      elim (Bool-cases changed) [
        | inl first ↦ (
          arm t.expired inserted,
          rw (e, first, found) refl,
          arm-IsConsistent _ inserted inserted-IsConsistent,
          refl,
          refl,
        )
        | inr later ↦ (inserted, rw (e, later) refl, inserted-IsConsistent, refl, refl)
      ]
