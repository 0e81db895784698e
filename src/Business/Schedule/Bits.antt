-- ===== src/Business/Schedule/Bits.antt =====
-- The bits of the masks of server/business/BusinessServer.cpp.
use qinyunserver.Base.{
  ℕ, ◌%◌, ◌<◌, ◌≡◌, refl, ap, ◌∙◌, Bool, true, false, not, ◌&&◌, ◌||◌, List, [], ◌∷◌, ◌==◌,
  if◌then◌else◌, arith, Bool-cases, inl, inr,
}
use qinyunserver.Base.Int.{pos, eq_ℤ, leb_ℤ}
use qinyunserver.Business.Bits.{test_bit, test_bit-or_bits}
use qinyunserver.Business.Schedule.{CourseRule, skips, day_mask}

or_assoc : (a b c : Bool) → (a || b || c) ≡ (a || (b || c))
or_assoc true b c = refl
or_assoc false b c = refl

-- A course takes place on a day of a week: it is that day's, the week is one of its weeks, and it is odd
-- for a course of odd weeks and even for one of even weeks.
abbrev pub takes_place : ℕ → ℕ → CourseRule → Bool
takes_place week day rule =
    eq_ℤ rule.day_of_week (pos day)
    && ((leb_ℤ rule.start_week (pos week) && leb_ℤ (pos week) rule.end_week)
        && (if eq_ℤ rule.week_type (pos 1)
            then week % 2 == 1
            else if eq_ℤ rule.week_type (pos 2)
            then week % 2 == 0
            else true))

-- One of the courses takes place and has the bit.
abbrev pub is_taken : ℕ → ℕ → ℕ → List CourseRule → Bool
is_taken i week day [] = false
is_taken i week day (rule ∷ rules) =
    takes_place week day rule && test_bit i rule.time_mask || is_taken i week day rules

takes_place-skips :
    (week day : ℕ) (rule : CourseRule) → skips week day rule ≡ not (takes_place week day rule)
takes_place-skips week day rule = ground arith

-- A bit of the mask of a day is set exactly where it was set before or one of the courses that take
-- place then has it, for each of the 32 bits.
pub test_bit-day_mask :
    (i week day : ℕ) (rules : List CourseRule) (mask : ℕ)
    → i < 32
    → test_bit i (day_mask week day rules mask) ≡ (test_bit i mask || is_taken i week day rules)
unfolding day_mask
test_bit-day_mask i week day [] mask h = ground arith
test_bit-day_mask i week day (rule ∷ rules) mask h = elim (Bool-cases (takes_place week day rule)) [
  | inl taken ↦
      rw (takes_place-skips week day rule ∙ ap not taken, taken)
        (test_bit-day_mask i week day rules _ h
          ∙ ap (λ t. t || is_taken i week day rules) (test_bit-or_bits 32 i mask rule.time_mask h)
          ∙ or_assoc (test_bit i mask) (test_bit i rule.time_mask) (is_taken i week day rules))
  | inr free ↦
      rw (takes_place-skips week day rule ∙ ap not free, free)
        (test_bit-day_mask i week day rules mask h)
]
