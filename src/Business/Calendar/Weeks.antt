-- ===== src/Business/Calendar/Weeks.antt =====
-- The week and the day that server/utils/TimeConverter.cpp gives for a date.
use Prim.Native.String.{String}
use qinyunserver.Base.{
  ℕ, ◌+◌, ◌-◌, ◌*◌, ◌/◌, ◌≤◌, ◌<◌, ◌≡◌, ◌↔◌, ap, ◌∙◌, true, false, leb, ◌&&◌, arith,
}
use qinyunserver.Base.Int.{pos, negsuc}
use qinyunserver.Business.Interface.{Calendar}
use qinyunserver.Business.Calendar.{
  WeekDay, minus_ℤ, quot, week_and_day, days_diff, convert_date_to_week_and_day,
}

-- A date that is `passed` whole days and `rest` seconds behind the start of the term.
abbrev pub IsBehind : Calendar → String → String → ℕ → ℕ → Type 0
IsBehind T term_start target passed rest =
    (start : ℕ) × (T.seconds term_start ≡ pos start)
    × (T.seconds target ≡ pos (start + passed * 86400 + rest))

quot_lem : (n : ℕ) → quot (quot (pos n) 3600) 24 ≡ pos (n / 86400)
quot_lem n = ap pos (omega arith)

module _ (T : Calendar) (term_start target : String) where
  days_diff-behind :
      (passed rest : ℕ)
      → rest < 86400
      → IsBehind T term_start target passed rest
      → days_diff T term_start target ≡ pos passed
  unfolding days_diff
  days_diff-behind passed rest h (start, e, f) =
      rw (e, f)
        (ap (λ z. quot (quot z 3600) 24) difference
          ∙ quot_lem (passed * 86400 + rest)
          ∙ ap pos (omega (arith, h)))
    where
      difference :
          minus_ℤ (pos (start + passed * 86400 + rest)) (pos start) ≡ pos (passed * 86400 + rest)
      difference = ground arith

  -- For a date that is some whole days and less than one more behind the start of the term, the week and
  -- the day give the number of whole days back, the day is 1 to 7, and the date is accepted exactly when
  -- fewer than 140 days have passed. So where a clock that goes forward in between takes an hour from the
  -- difference, the date is put one day early.
  pub convert_date_to_week_and_day_lem :
      (passed rest : ℕ) (out : WeekDay)
      → rest < 86400
      → IsBehind T term_start target passed rest
      → (7 * ((convert_date_to_week_and_day T term_start target out).1.week - 1)
            + ((convert_date_to_week_and_day T term_start target out).1.day - 1)
          ≡ passed)
        × (1 ≤ (convert_date_to_week_and_day T term_start target out).1.day)
        × ((convert_date_to_week_and_day T term_start target out).1.day ≤ 7)
        × (((convert_date_to_week_and_day T term_start target out).0 ≡ true) ↔ (passed < 140))
  unfolding convert_date_to_week_and_day week_and_day
  convert_date_to_week_and_day_lem passed rest out h b =
      rw (days_diff-behind passed rest h b) (omega arith, omega arith, omega arith, accepted passed)
    where
      accepted : (d : ℕ) → ((leb 1 (d / 7 + 1) && leb (d / 7 + 1) 20) ≡ true) ↔ (d < 140)
      accepted d = ((λ k. ground arith), λ k. ground arith)

  days_diff-before :
      (start early : ℕ)
      → T.seconds term_start ≡ pos (start + early)
      → T.seconds target ≡ pos start
      → 86400 ≤ early
      → (d : ℕ) × (days_diff T term_start target ≡ negsuc d)
  unfolding days_diff
  days_diff-before start early e f h =
      (early / 86400 - 1, rw (e, f) (ap (λ z. quot (quot z 3600) 24) difference ∙ quotient))
    where
      difference : minus_ℤ (pos start) (pos (start + early)) ≡ negsuc (early - 1)
      difference = ground (arith, h)

      quotient : quot (quot (negsuc (early - 1)) 3600) 24 ≡ negsuc (early / 86400 - 1)
      quotient = ground (arith, h)

  -- A date that is a day or more before the start of the term is refused, and the week and the day stay
  -- as they were.
  convert_date_to_week_and_day_before :
      (start early : ℕ) (out : WeekDay)
      → T.seconds term_start ≡ pos (start + early)
      → T.seconds target ≡ pos start
      → 86400 ≤ early
      → convert_date_to_week_and_day T term_start target out ≡ (false, out)
  unfolding convert_date_to_week_and_day week_and_day
  convert_date_to_week_and_day_before start early out e f h =
      let (d, p) = days_diff-before start early e f h in rw p
