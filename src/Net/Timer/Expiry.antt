-- ===== src/Net/Timer/Expiry.antt =====
-- The timers of net/src/timer.cpp that run out: what `getExpired` takes from the two sets.
use qinyunserver.Base.{
  ℕ, ◌≡◌, refl, sym, ap, ◌∙◌, true, false, not, ◌&&◌, ◌||◌, some, List, [], ◌∷◌, ◌==◌, length,
  arith, All, Bool-cases, inl, inr, leb,
}
use qinyunserver.Net.Timer.{Entry, has, erase, split_expired, erase_all}
use qinyunserver.Net.Timer.Entries.{
  has_timer, Unique, Distinct, has-erase, Distinct-erase, length-erase,
}

-- What is split off and what is left keep what holds of all entries.
pub All-split_expired :
    (P : Entry → Type 0) (now : ℕ) (es : List Entry)
    → All P es
    → All P (split_expired now es).0 × All P (split_expired now es).1
unfolding split_expired
All-split_expired P now [] all = (tt, tt)
All-split_expired P now (e ∷ es) (h, all) = elim (Bool-cases (leb e.when now)) [
  | inl out ↦ let (a, b) = All-split_expired P now es all in rw out ((h, a), b)
  | inr later ↦ rw later (tt, (h, all))
]

has_timer-split_expired :
    (j now : ℕ) (es : List Entry)
    → (has_timer j (split_expired now es).0 || has_timer j (split_expired now es).1)
      ≡ has_timer j es
unfolding split_expired
has_timer-split_expired j now [] = refl
has_timer-split_expired j now (e ∷ es) = ground (arith, has_timer-split_expired j now es)

has_timer-same :
    (j k : ℕ) (es : List Entry) → (j == k) ≡ true → has_timer k es ≡ false → has_timer j es ≡ false
has_timer-same j k es same away = ap (λ i. has_timer i es) (==→≡ same) ∙ away
  where
    ==→≡ : (j == k) ≡ true → j ≡ k
    ==→≡ h = ground arith

-- No timer is in both parts, or twice in one.
abbrev pub Apart : List Entry → List Entry → Type 0
Apart xs ys = (j : ℕ) → has_timer j xs ≡ true → has_timer j ys ≡ false

pub Unique-split_expired :
    (now : ℕ) (es : List Entry)
    → Unique es
    → Unique (split_expired now es).0
      × Unique (split_expired now es).1
      × Apart (split_expired now es).0 (split_expired now es).1
unfolding split_expired
Unique-split_expired now [] u = (tt, tt, λ j h. refl)
Unique-split_expired now (e ∷ es) u = elim (Bool-cases (leb e.when now)) [
  | inl out ↦
      let (a, b, c) = Unique-split_expired now es u.1 in
      let parts = has_timer-split_expired e.timer now es ∙ u.0 in
      rw out (
        (ground (arith, parts), a),
        b,
        λ j h. elim (Bool-cases (j == e.timer)) [
          | inl same ↦ has_timer-same j e.timer _ same (ground (arith, parts))
          | inr other ↦ c j (ground arith)
        ],
      )
  | inr later ↦ rw later (tt, u, λ j h. absurd (false≢true h))
]
  where
    false≢true : false ≡ true → ⊥
    false≢true h = cc

pub record Erased (now : ℕ) (es : List Entry) (active : List ℕ) : Type 0 where
  pub left : List ℕ
  pub erased : erase_all (split_expired now es).0 active ≡ some left
  pub same_size : length (split_expired now es).1 ≡ length left
  pub same_timers : (j : ℕ) → has j left ≡ has_timer j (split_expired now es).1
  pub distinct : Distinct left

pub erase_all-split_expired :
    (now : ℕ) (es : List Entry) (active : List ℕ)
    → length es ≡ length active
    → ((j : ℕ) → has j active ≡ has_timer j es)
    → Unique es
    → Distinct active
    → Erased now es active
unfolding split_expired erase_all
erase_all-split_expired now [] active n h u d = record {
  left = active;
  erased = refl;
  same_size = n;
  same_timers = h;
  distinct = d;
}
erase_all-split_expired now (e ∷ es) active n h u d = elim (Bool-cases (leb e.when now)) [
  | inl out ↦
      let there : has e.timer active ≡ true = h e.timer ∙ ground arith in
      let r =
        erase_all-split_expired now es (erase e.timer active)
          (omega (arith, length-erase e.timer active there))
          (λ j. has-erase e.timer j active d ∙ ap (λ b. not (j == e.timer) && b) (h j) ∙ without j)
          u.1 (Distinct-erase e.timer active d) in
      record {
        left = r.left;
        erased = rw (out, there) r.erased;
        same_size = rw out r.same_size;
        same_timers = rw out r.same_timers;
        distinct = r.distinct;
      }
  | inr later ↦ record {
    left = active;
    erased = rw later refl;
    same_size = rw later n;
    same_timers = rw later h;
    distinct = d;
  }
]
  where
    without : (j : ℕ) → (not (j == e.timer) && (j == e.timer || has_timer j es)) ≡ has_timer j es
    without j = elim (Bool-cases (j == e.timer)) [
      | inl same ↦ rw same (sym (ap (λ i. has_timer i es) (ground arith) ∙ u.0))
      | inr other ↦ rw other refl
    ]
