-- ===== src/Business/Handlers/Slots/Free.antt =====
-- Who counts as free in `handleGetTimeSlotAnalytics` of server/business/BusinessServer.cpp.
use mathlib.Core.Option.{some-injective}
use qinyunserver.Base.{
  ℕ, ◌+◌, subst, ◌<◌, ◌≡◌, refl, ap, sym, ◌∙◌, ◌&&◌, ◌==◌, Bool, true, false, Option, none, some,
  List, [], ◌∷◌, length, arith, Option-cases, inl, inr,
}
use qinyunserver.Business.Interface.{JsonLib, Row}
use qinyunserver.Business.Bits.{and_bits, test_bit, and_bits-zero, and_bits-common}
use qinyunserver.Business.Schedule.{u32_or_zero}
use qinyunserver.Business.Handlers.Activity.{column}
use qinyunserver.Business.Handlers.Rows.{read_object}
use qinyunserver.Business.Handlers.Slots.{Split, Object, slot_columns, slot_row, split_rows, put}

module _ (J : JsonLib) where
  slot_row-is_free :
      (check_mask sched_mask : ℕ) (row : Row) (is_free : Bool) (m : Object)
      → u32_or_zero (column 8 row) ≡ some sched_mask
      → slot_row J check_mask row ≡ some (is_free, m)
      → is_free ≡ (and_bits 32 sched_mask check_mask == 0)
  unfolding slot_row
  slot_row-is_free check_mask sched_mask row is_free m e h =
      elim (Option-cases
        (read_object (slot_columns J (and_bits 32 sched_mask check_mask == 0)) row)) [
          | inl k ↦ absurd (none≢some (rw (e, k, slot_row) at h))
          | inr (o, k) ↦ sym (ap (λ p. p.0) (some-injective _ _ (rw (e, k, slot_row) at h)))
        ]
    where
      none≢some : ◌≡◌ {A = Option (Bool × Object)} none (some (is_free, m)) → ⊥
      none≢some h = cc

  -- A member counts as free exactly where no hour of the slot is one of the hours of the member's day:
  -- the masks have no bit in common if the row is counted as free, and have one if it is counted as busy.
  pub slot_row-Free :
      (check_mask sched_mask : ℕ) (row : Row) (is_free : Bool) (m : Object)
      → u32_or_zero (column 8 row) ≡ some sched_mask
      → slot_row J check_mask row ≡ some (is_free, m)
      → (is_free ≡ true
          → (i : ℕ) → i < 32
          → (test_bit i sched_mask && test_bit i check_mask) ≡ false)
        × (is_free ≡ false
            → (i : ℕ) × (i < 32) × ((test_bit i sched_mask && test_bit i check_mask) ≡ true))
  slot_row-Free check_mask sched_mask row is_free m e h =
      let same = slot_row-is_free check_mask sched_mask row is_free m e h in
      (
        (λ t i k. and_bits-zero 32 i sched_mask check_mask (sym same ∙ t) k),
        λ t. and_bits-common 32 sched_mask check_mask (sym same ∙ t),
      )

  abbrev Counted : List Row → Split → Type 0
  Counted rs s =
      (s.total_squad ≡ length rs)
      × (s.free_squad ≡ length s.free)
      × (s.total_squad ≡ length s.free + length s.busy)

  put-Counted :
      (row : Row) (rs : List Row) (found : Bool × Object) (s : Split)
      → Counted rs s
      → Counted (row ∷ rs) (put J found s)
  put-Counted row rs (true, m) s h = omega (arith, h.0, h.1, h.2)
  put-Counted row rs (false, m) s h = omega (arith, h.0, h.1, h.2)

  -- The counts of an analysis are those of its arrays: each row is in one of them, and the free ones are
  -- those that `free_count` counts.
  split_rows-Counted :
      (check_mask : ℕ) (rs : List Row) (s : Split)
      → split_rows J check_mask rs ≡ some s
      → Counted rs s
  unfolding split_rows
  split_rows-Counted check_mask [] s h =
      subst (Counted []) (some-injective _ _ h) (refl, refl, refl)
  split_rows-Counted check_mask (row ∷ rs) s h = elim (Option-cases (slot_row J check_mask row)) [
    | inl e ↦ absurd (none≢some (rw (e, split_rows) at h))
    | inr (found, e) ↦ elim (Option-cases (split_rows J check_mask rs)) [
      | inl k ↦ absurd (none≢some (rw (e, k, split_rows) at h))
      | inr (s₁, k) ↦
          subst (Counted (row ∷ rs)) (some-injective _ _ (rw (e, k, split_rows) at h))
            (put-Counted row rs found s₁ (split_rows-Counted check_mask rs s₁ k))
    ]
  ]
    where
      none≢some : ◌≡◌ {A = Option Split} none (some s) → ⊥
      none≢some h = cc
