-- ===== src/Business/Calendar.antt =====
-- server/utils/TimeConverter.cpp: the teaching week and the day of a date, and the bitmaps of hours.
pub mod Weeks
pub mod Hours
use Prim.Native.String.{String}
use text.Mathlib.Text.{◌==◌ as str_eq}
use qinyunserver.Base.{
  ℕ, zero, suc, ◌+◌, ◌-◌, ◌*◌, ◌/◌, ◌%◌, ◌^◌, Bool, true, false, ◌&&◌, leb, ◌==◌, if◌then◌else◌,
}
use qinyunserver.Base.Int.{ℤ, pos, negsuc, pos_part, neg_part, sub_ℕ, ltb_ℤ, eq_ℤ}
use qinyunserver.Business.Interface.{Calendar}
use qinyunserver.Business.Bits.{or_bits, and_bits}

-- a - b, and a / n as C++ has it, towards 0.
abbrev pub minus_ℤ : ℤ → ℤ → ℤ
minus_ℤ a b = sub_ℕ (pos_part a + neg_part b) (pos_part b + neg_part a)

abbrev pub quot : ℤ → ℕ → ℤ
quot (pos a) n = pos (a / n)
quot (negsuc a) n = sub_ℕ 0 (suc a / n)

-- `outWeek` and `outDay`
pub record WeekDay : Type 0 where
  pub week : ℕ
  pub day : ℕ

-- The days that passed, and the week and the day of the week that they are put into; a date before the
-- term leaves both as they were.
unfoldable pub week_and_day : ℤ → WeekDay → Bool × WeekDay
week_and_day (negsuc d) out = (false, out)
week_and_day (pos days_diff) out = (
  leb 1 (days_diff / 7 + 1) && leb (days_diff / 7 + 1) 20,
  record { week = days_diff / 7 + 1; day = days_diff % 7 + 1 },
)

-- The bit `i` of `calculateHourMask` is set where `startHour + startMin / 60.0 < 8 + i` and
-- `endHour + endMin / 60.0 > 7 + i`: in minutes. The doubles there are off by less than a minute, so
-- the comparison with a whole hour has the same result.
abbrev pub in_minutes : ℤ × ℤ → ℤ
in_minutes (h, m) = sub_ℕ (pos_part h * 60 + pos_part m) (neg_part h * 60 + neg_part m)

abbrev pub overlaps : ℤ → ℤ → ℕ → Bool
overlaps act_start act_end i =
    ltb_ℤ act_start (pos ((8 + i) * 60)) && ltb_ℤ (pos ((7 + i) * 60)) act_end

-- The loop over the fifteen hours, from the hour `15 - rounds`.
unfoldable pub hour_mask : ℤ → ℤ → ℕ → ℕ → ℕ
hour_mask act_start act_end zero mask = mask
hour_mask act_start act_end (suc rounds) mask =
    hour_mask act_start act_end rounds (
      if overlaps act_start act_end (14 - rounds)
      then or_bits 32 mask (2 ^ (14 - rounds))
      else mask)

-- `convertQmlPeriodToDayMask`
unfoldable pub convert_qml_period_to_day_mask : ℤ → ℕ
convert_qml_period_to_day_mask qml_period =
    if eq_ℤ qml_period (pos 1)
    then or_bits 32 (or_bits 32 0 (2 ^ 1)) (2 ^ 2)
    else if eq_ℤ qml_period (pos 2)
    then or_bits 32 (or_bits 32 0 (2 ^ 3)) (2 ^ 4)
    else if eq_ℤ qml_period (pos 3)
    then or_bits 32 (or_bits 32 0 (2 ^ 7)) (2 ^ 8)
    else if eq_ℤ qml_period (pos 4)
    then or_bits 32 (or_bits 32 0 (2 ^ 9)) (2 ^ 10)
    else 0

-- The loop of `calculateDurationByMask`, from the bit `15 - rounds`; whole hours.
unfoldable pub duration_by_mask : ℕ → ℕ → ℕ → ℕ
duration_by_mask mask zero hours = hours
duration_by_mask mask (suc rounds) hours =
    duration_by_mask mask rounds
      (if and_bits 32 mask (2 ^ (14 - rounds)) == 0 then hours else hours + 1)

-- `calculateDurationByMask`
unfoldable pub calculate_duration_by_mask : ℕ → ℕ
calculate_duration_by_mask hour_mask' = duration_by_mask hour_mask' 15 0

module _ (T : Calendar) where
  -- `daysDiff` of `convertDateToWeekAndDay`: whole hours, and whole days of 24 of them.
  unfoldable pub days_diff : String → String → ℤ
  days_diff term_start target =
      quot (quot (minus_ℤ (T.seconds target) (T.seconds term_start)) 3600) 24

  -- `convertDateToWeekAndDay`
  unfoldable pub convert_date_to_week_and_day : String → String → WeekDay → Bool × WeekDay
  convert_date_to_week_and_day term_start target out =
      week_and_day (days_diff term_start target) out

  -- `calculateHourMask`
  unfoldable pub calculate_hour_mask : String → String → ℕ
  calculate_hour_mask start_time end_time =
      hour_mask (in_minutes (T.scan_time start_time)) (in_minutes (T.scan_time end_time)) 15 0

  -- `getCurrentWeek`
  unfoldable pub get_current_week : String → ℕ
  get_current_week cached_term_start =
      let found =
        convert_date_to_week_and_day cached_term_start T.today (record { week = 0; day = 0 }) in
      if str_eq cached_term_start "" then 0 else if found.0 then found.1.week else 0
