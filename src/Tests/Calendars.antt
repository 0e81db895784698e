-- ===== src/Tests/Calendars.antt =====
-- The theorems on weeks, days and hours, and on adding activities, at a small calendar.
use Prim.Native.String.{String}
use text.Mathlib.Text.{◌==◌ as str_eq}
use qinyunserver.Base.{◌+◌, ◌-◌, ◌*◌, ◌≤◌, ◌<◌, ◌≡◌, ◌↔◌, ℕ, refl, true, arith, if◌then◌else◌}
use qinyunserver.Base.Int.{ℤ, pos, ◌<ℤ◌}
use qinyunserver.Business.Interface.{Calendar}
use qinyunserver.Business.Bits.{test_bit}
use qinyunserver.Business.Calendar.{
  WeekDay, convert_date_to_week_and_day, calculate_hour_mask, calculate_duration_by_mask,
  in_minutes, overlaps,
}
use qinyunserver.Business.Calendar.Weeks.{convert_date_to_week_and_day_lem}
use qinyunserver.Business.Calendar.Hours.{
  count_hours, calculate_hour_mask_lem, calculate_duration_by_mask-calculate_hour_mask,
}
use qinyunserver.Business.Transaction.{Transaction}
use qinyunserver.Business.Handlers.Edit.{handle_add_activity}
use qinyunserver.Business.Handlers.Add.{Additions, handle_add_activity-Transaction}
use qinyunserver.Tests.Requests.{
  Value, field, item, word, no_fields, no_items, small_json, small_db, start,
}

-- The term starts at 1000 seconds; "late" is nine days behind it less an hour, "early" is before it.
abbrev seconds_of : String → ℤ
seconds_of date =
    if str_eq date "term" then pos 87400 else if str_eq date "late" then pos 861400 else pos 1000

abbrev scan : String → ℤ × ℤ
scan time = if str_eq time "9:30" then (pos 9, pos 30) else (pos 11, pos 0)

abbrev pub small_calendar : Calendar
small_calendar = record { seconds = seconds_of; today = "late"; scan_time = scan }

abbrev nothing : WeekDay
nothing = record { week = 1; day = 1 }

-- Nine days are week 2 and day 3; an hour less, day 2.
convert_date_to_week_and_day_example :
    (7 * ((convert_date_to_week_and_day small_calendar "term" "late" nothing).1.week - 1)
        + ((convert_date_to_week_and_day small_calendar "term" "late" nothing).1.day - 1)
      ≡ 8)
    × (1 ≤ (convert_date_to_week_and_day small_calendar "term" "late" nothing).1.day)
    × ((convert_date_to_week_and_day small_calendar "term" "late" nothing).1.day ≤ 7)
    × (((convert_date_to_week_and_day small_calendar "term" "late" nothing).0 ≡ true) ↔ (8 < 140))
convert_date_to_week_and_day_example =
    convert_date_to_week_and_day_lem small_calendar "term" "late" 8 82800 nothing (omega arith)
      (87400, refl, refl)

calculate_hour_mask_example :
    (test_bit 3 (calculate_hour_mask small_calendar "9:30" "11:00") ≡ true) ↔ (
      (3 < 15)
      × (in_minutes (pos 9, pos 30) <ℤ pos ((8 + 3) * 60))
      × (pos ((7 + 3) * 60) <ℤ in_minutes (pos 11, pos 0)))
calculate_hour_mask_example = calculate_hour_mask_lem small_calendar "9:30" "11:00" 3 (omega arith)

calculate_duration_by_mask-calculate_hour_mask_example :
    ((mask : ℕ) → calculate_duration_by_mask mask ≡ count_hours (λ i. test_bit i mask) 15)
    × (calculate_duration_by_mask (calculate_hour_mask small_calendar "9:30" "11:00")
        ≡ count_hours (overlaps (in_minutes (pos 9, pos 30)) (in_minutes (pos 11, pos 0))) 15)
calculate_duration_by_mask-calculate_hour_mask_example =
    calculate_duration_by_mask-calculate_hour_mask small_calendar "9:30" "11:00"

abbrev instance_of : String → Value
instance_of date =
    field "date" (word date)
      (field "start_time" (word "9:30") (field "end_time" (word "11:00") no_fields))

abbrev add_two : Value
add_two =
    field "instances" (item (instance_of "late") (item (instance_of "early") no_items)) no_fields

handle_add_activity-Transaction_example :
    Transaction
      (Additions small_db small_json small_calendar add_two)
      start
      (handle_add_activity small_json small_db small_calendar add_two start)
handle_add_activity-Transaction_example =
    handle_add_activity-Transaction small_db small_json small_calendar add_two start
