-- ===== src/Business/Handlers/Slots.antt =====
-- Handlers of server/business/BusinessServer.cpp that compare the bitmaps of a day: which members are free.
pub mod Free
use Prim.Native.String.{String, ◌++◌}
use text.Mathlib.Text.{◌==◌ as str_eq}
use qinyunserver.Base.{
  ℕ, zero, suc, ◌+◌, ◌==◌, ◌&&◌, Bool, true, false, Option, none, some, List, [], ◌∷◌,
  if◌then◌else◌, length,
}
use qinyunserver.Base.Int.{ℤ, pos, minus, ltb_ℤ}
use qinyunserver.Business.Monad.{M, ◌>>=◌, ◌>>◌, pure, or_throw, unless}
use qinyunserver.Business.Text.{int_to_string, to_string}
use qinyunserver.Business.Interface.{JsonLib, Mysql, Row}
use qinyunserver.Business.Server.{
  Datum, title, figure, percentage, phrase, number, arrays_of, rows, Server, send_response,
  send_error, fail_with, run_query, store_result, need_connection, int_field, u32_field,
}
use qinyunserver.Business.Bits.{and_bits}
use qinyunserver.Business.Schedule.{u32_or_zero}
use qinyunserver.Business.Handlers.Activity.{column, int_column}
use qinyunserver.Business.Handlers.Rows.{
  rows_of, each, Reader, int_at, int_or, text_or, decimal_at, read_object,
}

abbrev pub Object : Type 0
Object = List (String × Datum)

-- The counters and the arrays of the free and of the busy members.
pub record Split : Type 0 where
  pub total_squad : ℕ
  pub free_squad : ℕ
  pub free : List Object
  pub busy : List Object

module _ (J : JsonLib) where
  abbrev pub slot_columns : Bool → List (String × Reader)
  slot_columns is_free =
      ("user_id", int_at 0)
      ∷ ("student_id", text_or 1 "")
      ∷ ("name", text_or 2 "")
      ∷ ("gender", int_or 3 (pos 0))
      ∷ ("role_id", int_or 4 (pos 40))
      ∷ ("dept_name", text_or 5 "未分配")
      ∷ ("major", text_or 6 "")
      ∷ ("class_name", text_or 7 "")
      ∷ ("total_count", int_at 9)
      ∷ ("total_hours", decimal_at J 10)
      ∷ ("current_state", λ row. some (title (if is_free then "free" else "busy_course")))
      ∷ []

  -- A row of `handleGetTimeSlotAnalytics`: is the member free, and the object.
  unfoldable pub slot_row : ℕ → Row → Option (Bool × Object)
  slot_row check_mask row = elim (u32_or_zero (column 8 row)) [
    | none ↦ none
    | some sched_mask ↦
        let is_free = and_bits 32 sched_mask check_mask == 0 in
        elim (read_object (slot_columns is_free) row) [ none ↦ none | some m ↦ some (is_free, m) ]
  ]

  abbrev pub put : Bool × Object → Split → Split
  put (true, m) s = record s {
    total_squad = s.total_squad + 1;
    free_squad = s.free_squad + 1;
    free = m ∷ s.free;
  }
  put (false, m) s = record s { total_squad = s.total_squad + 1; busy = m ∷ s.busy }

  -- The loop over the rows.
  unfoldable pub split_rows : ℕ → List Row → Option Split
  split_rows check_mask [] = some (record { total_squad = 0; free_squad = 0; free = []; busy = [] })
  split_rows check_mask (row ∷ rs) = elim (slot_row check_mask row) [
    | none ↦ none
    | some found ↦ elim (split_rows check_mask rs) [ none ↦ none | some s ↦ some (put found s) ]
  ]

abbrev pub analytics_sql : ℤ → ℤ → String → String
analytics_sql target_week day_of_week target_class =
    "SELECT u.id, u.student_id, u.name, u.gender, u.role_id, d.name AS dept_name, u.major, u.class_name, "
    ++ "COALESCE(s.day_bitmask, 0) AS current_schedule_mask, "
    ++ "COUNT(CASE WHEN am.is_attended = 1 THEN 1 END) AS total_count, "
    ++ "COALESCE(SUM(CASE WHEN am.is_attended = 1 THEN am.duration_hours END), 0.0) AS total_hours "
    ++ "FROM users u "
    ++ "LEFT JOIN schedules s ON u.id = s.user_id AND s.week_number = "
    ++ int_to_string target_week
    ++ " AND s.day_of_week = "
    ++ int_to_string day_of_week
    ++ " "
    ++ "LEFT JOIN departments d ON u.department_id = d.id "
    ++ "LEFT JOIN activity_members am ON u.id = am.user_id "
    ++ "WHERE u.role_id >= 20 AND u.status = 1 "
    ++ (if str_eq target_class "" then "" else "AND u.class_name = '" ++ target_class ++ "' ")
    ++ "GROUP BY u.id, s.day_bitmask, d.name ORDER BY u.student_id ASC;"

abbrev pub filter_sql : ℤ → ℤ → ℕ → String
filter_sql week day_of_week mask =
    "SELECT u.id, u.name, u.student_id, d.name AS dept_name, u.role_id, u.gender, "
    ++ "u.phone, u.major, u.class_name, "
    ++ "COUNT(CASE WHEN am.is_attended = 1 THEN 1 END) AS total_count, "
    ++ "COALESCE(SUM(CASE WHEN am.is_attended = 1 THEN am.duration_hours END), 0.0) AS total_hours, "
    ++ "COALESCE(MAX(CASE WHEN am.is_attended = 1 THEN am.updated_at END), '1970-01-01 00:00:00') AS last_time, "
    ++ "(SELECT COUNT(*) FROM activity_members active_am "
    ++ " INNER JOIN activities active_act ON active_am.activity_id = active_act.id "
    ++ " WHERE active_am.user_id = u.id AND active_act.status = 2) AS is_in_activity, "
    ++ "COALESCE(s.day_bitmask, 0) AS current_schedule_mask "
    ++ "FROM users u "
    ++ "LEFT JOIN schedules s ON u.id = s.user_id AND s.week_number = "
    ++ int_to_string week
    ++ " AND s.day_of_week = "
    ++ int_to_string day_of_week
    ++ " "
    ++ "LEFT JOIN departments d ON u.department_id = d.id "
    ++ "LEFT JOIN activity_members am ON u.id = am.user_id "
    ++ "WHERE u.role_id >= 20 AND u.status = 1 "
    ++ "AND (COALESCE(s.day_bitmask, 0) & "
    ++ to_string mask
    ++ ") = 0 "
    ++ "AND NOT EXISTS ("
    ++ "    SELECT 1 FROM activity_members busy_am "
    ++ "    INNER JOIN activities busy_act ON busy_am.activity_id = busy_act.id "
    ++ "    WHERE busy_am.user_id = u.id "
    ++ "    AND busy_act.activity_week = "
    ++ int_to_string week
    ++ " "
    ++ "    AND busy_act.id IN (SELECT id FROM activities WHERE DATE(start_date) = (SELECT DATE(start_date) FROM activities WHERE id = busy_am.activity_id)) "
    ++ "    AND (busy_act.time_mask & "
    ++ to_string mask
    ++ ") != 0 "
    ++ "    AND busy_act.status IN (1, 2)"
    ++ ") "
    ++ "GROUP BY u.id, s.day_bitmask, d.name ORDER BY u.student_id ASC;"

module _ (J : JsonLib) (D : Mysql) where
  -- `handleGetTimeSlotAnalytics`
  unfoldable pub handle_get_time_slot_analytics : J.Value → M (Server D.Conn) (Unit {0})
  handle_get_time_slot_analytics json = do
    unless (J.contains json "target_week" && J.contains json "time_mask")
        (send_error (minus 415) "Missing analytical tracking bounds")
    target_week ← or_throw (int_field J json "target_week")
    check_mask ← or_throw (u32_field J json "time_mask")
    day_of_week ← or_throw (J.value_int json "day_of_week" (pos 1))
    target_class ← or_throw (J.value_string json "target_class" "")
    need_connection D "Database link closed"
    fine ← run_query D (analytics_sql target_week day_of_week target_class)
    unless fine (fail_with D (minus 501) "Matrix analysis crash: ")
    result ← store_result D
    split ← or_throw (split_rows J check_mask (rows_of result))
    send_response (
        ("status", phrase "ok")
        ∷ ("action", phrase "GET_TIME_ANALYTICS")
        ∷ (
          "data",
          arrays_of
              (("total_count", figure (pos split.total_squad))
                ∷ ("free_count", figure (pos split.free_squad))
                ∷ ("free_rate", percentage split.free_squad split.total_squad)
                ∷ [])
              (("free_members", rows split.free) ∷ ("busy_members", rows split.busy) ∷ []),
        )
        ∷ [])

  -- The state of a row of `handleFilterMembers`.
  unfoldable pub current_state : ℕ → Reader
  current_state mask row = elim (int_column 12 row) [
    | none ↦ none
    | some is_in_activity ↦ elim (u32_or_zero (column 13 row)) [
      | none ↦ none
      | some sched_mask ↦ some (
          title (
            if ltb_ℤ (pos 0) is_in_activity
            then "busy_activity"
            else if and_bits 32 sched_mask mask == 0
            then "free"
            else "busy_course"))
    ]
  ]

  abbrev pub filter_columns : ℕ → List (String × Reader)
  filter_columns mask =
      ("user_id", int_at 0)
      ∷ ("name", text_or 1 "")
      ∷ ("student_id", text_or 2 "")
      ∷ ("dept_name", text_or 3 "未分配")
      ∷ ("role_id", int_or 4 (pos 40))
      ∷ ("gender", int_or 5 (pos 0))
      ∷ ("phone", text_or 6 "-")
      ∷ ("major", text_or 7 "")
      ∷ ("class_name", text_or 8 "")
      ∷ ("total_count", int_at 9)
      ∷ ("total_hours", decimal_at J 10)
      ∷ ("last_time", text_or 11 "无记录")
      ∷ ("current_state", current_state mask)
      ∷ []

  -- `handleFilterMembers`
  unfoldable pub handle_filter_members : J.Value → M (Server D.Conn) (Unit {0})
  handle_filter_members json = do
    unless (J.contains json "activity_week" && J.contains json "time_mask")
        (send_error (minus 305) "Missing scheduling bits for calendar dynamic pipeline")
    week ← or_throw (int_field J json "activity_week")
    mask ← or_throw (u32_field J json "time_mask")
    day_of_week ← or_throw (J.value_int json "day_of_week" (pos 6))
    need_connection D "Database link closed"
    fine ← run_query D (filter_sql week day_of_week mask)
    unless fine (fail_with D (minus 501) "Calendar matrix filter query failure: ")
    result ← store_result D
    member_list ← or_throw (each (read_object (filter_columns mask)) (rows_of result))
    send_response (
        ("status", phrase "ok")
        ∷ ("action", phrase "FILTER_AVAILABLE_MEMBERS")
        ∷ ("data", arrays_of [] (("members", rows member_list) ∷ []))
        ∷ [])
