-- ===== src/Net/Timer/Entries.antt =====
-- The two sets of net/src/timer.cpp as lists: what inserting and erasing do to them.
use qinyunserver.Base.{
  ℕ, suc, ◌≡◌, refl, ap, ◌∙◌, Bool, true, false, not, ◌&&◌, ◌||◌, Option, some, List, [], ◌∷◌, ◌==◌,
  length, arith, All, Bool-cases, inl, inr,
}
use qinyunserver.Net.Timer.{
  Timer, Entry, before, same_entry, insert_entry, has_entry, erase_entry, has, erase,
}

-- The timer is one of the entries.
abbrev pub has_timer : ℕ → List Entry → Bool
has_timer p [] = false
has_timer p (e ∷ es) = p == e.timer || has_timer p es

-- No timer has two entries, and no address stands twice.
abbrev pub Unique : List Entry → Type 0
Unique [] = Unit {0}
Unique (e ∷ es) = (has_timer e.timer es ≡ false) × Unique es

abbrev pub Distinct : List ℕ → Type 0
Distinct [] = Unit {0}
Distinct (p ∷ ps) = (has p ps ≡ false) × Distinct ps

-- An entry has the time at which its timer runs out.
abbrev pub Dated : (ℕ → Option Timer) → Entry → Type 0
Dated heap e = (t : Timer) × (heap e.timer ≡ some t) × (t.expired ≡ e.when)

pub has_entry-has_timer :
    (e : Entry) (es : List Entry) → has_timer e.timer es ≡ false → has_entry e es ≡ false
unfolding has_entry
has_entry-has_timer e [] h = refl
has_entry-has_timer e (x ∷ es) h = ground (arith, has_entry-has_timer e es)

pub length-insert_entry :
    (e : Entry) (es : List Entry)
    → has_entry e es ≡ false
    → length (insert_entry e es) ≡ suc (length es)
unfolding has_entry insert_entry
length-insert_entry e [] h = refl
length-insert_entry e (x ∷ es) h = ground (arith, length-insert_entry e es)

pub has_timer-insert_entry :
    (p : ℕ) (e : Entry) (es : List Entry)
    → has_entry e es ≡ false
    → has_timer p (insert_entry e es) ≡ (p == e.timer || has_timer p es)
unfolding has_entry insert_entry
has_timer-insert_entry p e [] h = refl
has_timer-insert_entry p e (x ∷ es) h = ground (arith, has_timer-insert_entry p e es)

pub All-insert_entry :
    (P : Entry → Type 0) (e : Entry) (es : List Entry) → P e → All P es → All P (insert_entry e es)
unfolding insert_entry
All-insert_entry P e [] h all = (h, tt)
All-insert_entry P e (x ∷ es) h all = elim (Bool-cases (before e x)) [
  | inl first ↦ rw first (h, all)
  | inr later ↦ elim (Bool-cases (same_entry e x)) [
    | inl same ↦ rw (later, same) all
    | inr other ↦ rw (later, other) (all.0, All-insert_entry P e es h all.1)
  ]
]

pub Unique-insert_entry :
    (e : Entry) (es : List Entry)
    → has_timer e.timer es ≡ false
    → Unique es
    → Unique (insert_entry e es)
unfolding insert_entry
Unique-insert_entry e [] h u = (refl, tt)
Unique-insert_entry e (x ∷ es) h u = elim (Bool-cases (before e x)) [
  | inl first ↦ rw first (h, u)
  | inr later ↦ elim (Bool-cases (same_entry e x)) [
    | inl same ↦ rw (later, same) u
    | inr other ↦
        rw (later, other)
          (
            has_timer-insert_entry x.timer e es (has_entry-has_timer e es (ground arith))
                ∙ ground (arith, u.0),
            Unique-insert_entry e es (ground arith) u.1,
          )
  ]
]

-- Erasing the entry of a timer.
module _ (heap : ℕ → Option Timer) (p : ℕ) (t : Timer) (found : heap p ≡ some t) where
  abbrev own : Entry
  own = record { when = t.expired; timer = p }

  same_entry-own : (x : Entry) → Dated heap x → same_entry own x ≡ (p == x.timer)
  same_entry-own x (t₁, e, w) = elim (Bool-cases (p == x.timer)) [
    | inl same ↦ ground (arith, found, e, w, ap heap (==→eq same))
    | inr other ↦ ground arith
  ]
    where
      ==→eq : (p == x.timer) ≡ true → p ≡ x.timer
      ==→eq h = ground arith

  pub has_timer-erase_entry :
      (j : ℕ) (es : List Entry)
      → All (Dated heap) es
      → Unique es
      → has_timer j (erase_entry own es) ≡ (not (j == p) && has_timer j es)
  unfolding erase_entry
  has_timer-erase_entry j [] all u = ground arith
  has_timer-erase_entry j (x ∷ es) all u =
      ground (arith, same_entry-own x all.0, has_timer-erase_entry j es all.1 u.1, u.0, rest_of j)
    where
      rest_of : (k : ℕ) → k ≡ x.timer → has_timer k es ≡ false
      rest_of k e = ap (λ i. has_timer i es) e ∙ u.0

  pub Unique-erase_entry :
      (es : List Entry) → All (Dated heap) es → Unique es → Unique (erase_entry own es)
  unfolding erase_entry
  Unique-erase_entry [] all u = tt
  Unique-erase_entry (x ∷ es) all u = elim (Bool-cases (same_entry own x)) [
    | inl same ↦ rw same u.1
    | inr other ↦ rw other (
      has_timer-erase_entry x.timer es all.1 u.1 ∙ ground (arith, u.0),
      Unique-erase_entry es all.1 u.1,
    )
  ]

  pub length-erase_entry :
      (es : List Entry)
      → All (Dated heap) es
      → has_timer p es ≡ true
      → suc (length (erase_entry own es)) ≡ length es
  unfolding erase_entry
  length-erase_entry [] all h = absurd (cc)
  length-erase_entry (x ∷ es) all h =
      ground (arith, same_entry-own x all.0, length-erase_entry es all.1)

  pub All-erase_entry :
      (P : Entry → Type 0) (es : List Entry) → All P es → All P (erase_entry own es)
  unfolding erase_entry
  All-erase_entry P [] all = tt
  All-erase_entry P (x ∷ es) all = elim (Bool-cases (same_entry own x)) [
    | inl same ↦ rw same all.1
    | inr other ↦ rw other (all.0, All-erase_entry P es all.1)
  ]

-- The same of the set of addresses.
pub has-erase :
    (p j : ℕ) (ps : List ℕ) → Distinct ps → has j (erase p ps) ≡ (not (j == p) && has j ps)
unfolding has erase
has-erase p j [] d = ground arith
has-erase p j (x ∷ ps) d = ground (arith, has-erase p j ps d.1, d.0, rest_of j)
  where
    rest_of : (k : ℕ) → k ≡ x → has k ps ≡ false
    rest_of k e = ap (λ i. has i ps) e ∙ d.0

pub Distinct-erase : (p : ℕ) (ps : List ℕ) → Distinct ps → Distinct (erase p ps)
unfolding has erase
Distinct-erase p [] d = tt
Distinct-erase p (x ∷ ps) d = elim (Bool-cases (p == x)) [
  | inl same ↦ rw same d.1
  | inr other ↦ rw other (has-erase p x ps d.1 ∙ ground (arith, d.0), Distinct-erase p ps d.1)
]

pub length-erase : (p : ℕ) (ps : List ℕ) → has p ps ≡ true → suc (length (erase p ps)) ≡ length ps
unfolding has erase
length-erase p [] h = absurd (cc)
length-erase p (x ∷ ps) h = ground (arith, length-erase p ps)
