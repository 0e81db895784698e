-- ===== src/Business/Handlers/Template.antt =====
-- Handlers of server/business/BusinessServer.cpp on the courses of a class and of a user.
pub mod Dedup
pub mod Unapplied
pub mod Courses
pub mod Upload
use Prim.Native.String.{String, ◌++◌}
use text.Mathlib.Text.{◌==◌ as str_eq}
use qinyunserver.Base.{
  length, ℕ, ◌+◌, ◌*◌, ◌-◌, ltb, not, ◌==◌, map, ◌%◌, ◌^◌, ◌&&◌, ◌||◌, Bool, true, false, Option,
  none, some, List, [], ◌∷◌, if◌then◌else◌,
}
use qinyunserver.Base.Int.{ℤ, pos, negsuc, minus, pos_part, neg_part, sub_ℕ, eq_ℤ, leb_ℤ}
use qinyunserver.Business.Monad.{
  M, ◌>>=◌, ◌>>◌, pure, or_throw, or_abort, unless, for_each, from, guarded, call,
}
use qinyunserver.Business.Text.{int_to_string, to_string}
use qinyunserver.Business.Interface.{JsonLib, Mysql, Row}
use qinyunserver.Business.Server.{
  Server, Datum, phrase, number, figure, record_of, arrays_of, rows, send_response, send_error,
  fail_with, run_query, execute, store_result, need_connection, escape_string, int_field,
  string_field, has_array, has_string,
}
use qinyunserver.Business.Bits.{or_bits}
use qinyunserver.Business.Schedule.{weeks, rebuild_user_schedules}
use qinyunserver.Business.Handlers.Activity.{column, int_column}
use qinyunserver.Business.Handlers.Assign.{listed}
use qinyunserver.Business.Handlers.Rows.{rows_of, each, Reader, int_at, text_or, read_object}

-- An int, put into an uint32_t.
abbrev pub to_u32 : ℤ → ℕ
to_u32 (pos n) = n % 2 ^ 32
to_u32 (negsuc n) = 2 ^ 32 - 1 - n % 2 ^ 32

abbrev pub course_columns : List (String × Reader)
course_columns =
    ("course_name", text_or 0 "有课")
    ∷ ("day_of_week", int_at 1)
    ∷ ("period", int_at 2)
    ∷ ("start_week", int_at 3)
    ∷ ("end_week", int_at 4)
    ∷ ("week_type", int_at 5)
    ∷ []

-- `std::string(row[1]) + "-" + std::string(row[2])`
abbrev pub slot_key : Row → Option String
slot_key row = elim (column 1 row) [
  | none ↦ none
  | some day ↦ elim (column 2 row) [ none ↦ none | some period ↦ some (day ++ "-" ++ period) ]
]

-- `seen.find(key) != seen.end()`
abbrev pub was_seen : String → List String → Bool
was_seen key [] = false
was_seen key (k ∷ seen) = str_eq k key || was_seen key seen

-- The loop of `handleGetClassTemplate`: the first row of each slot.
unfoldable pub courses_of : List Row → List String → Option (List (List (String × Datum)))
courses_of [] seen = some []
courses_of (row ∷ rs) seen = elim (slot_key row) [
  | none ↦ none
  | some key ↦ elim (was_seen key seen) [
    | true ↦ courses_of rs seen
    | false ↦ elim (read_object course_columns row) [
      | none ↦ none
      | some c ↦ elim (courses_of rs (key ∷ seen)) [ none ↦ none | some cs ↦ some (c ∷ cs) ]
    ]
  ]
]

abbrev pub template_sql : Bool → ℤ → String → String
template_sql is_public_mode user_id class_name =
    if is_public_mode
    then "SELECT course_name, day_of_week, period, start_week, end_week, week_type "
      ++ "FROM course_templates " ++ "WHERE class_identifier = '" ++ class_name
      ++ "' AND user_id IS NULL;"
    else "SELECT course_name, day_of_week, period, start_week, end_week, week_type "
      ++ "FROM course_templates "
      ++ "WHERE (user_id = "
      ++ int_to_string user_id
      ++ ") "
      ++ "OR (class_identifier = '"
      ++ class_name
      ++ "' AND user_id IS NULL) "
      ++ "ORDER BY user_id DESC;"

-- What stands in front of a course's own values, for a class or for a user.
abbrev pub course_owner : Bool → ℤ → String → String
course_owner is_public user_id target_class =
    if is_public
    then "(NULL, '" ++ target_class ++ "', '"
    else "(" ++ int_to_string user_id ++ ", NULL, '"

abbrev pub course_delete : Bool → ℤ → String → String
course_delete is_public user_id target_class =
    if is_public
    then "DELETE FROM course_templates WHERE class_identifier = '" ++ target_class
      ++ "' AND user_id IS NULL;"
    else "DELETE FROM course_templates WHERE user_id = "
      ++ int_to_string user_id
      ++ " AND class_identifier IS NULL;"

module _ (J : JsonLib) (D : Mysql) where
  -- `handleGetClassTemplate`
  unfoldable pub handle_get_class_template : J.Value → M (Server D.Conn) (Unit {0})
  handle_get_class_template json = do
    unless
        (J.contains json "class_name"
          && has_string J json "class_name"
          && J.contains json "user_id")
        (send_error (minus 411) "Missing class_name or user_id")
    class_name ← or_throw (string_field J json "class_name")
    user_id ← or_throw (int_field J json "user_id")
    is_public_mode ← or_throw (J.value_bool json "is_public" false)
    need_connection D "Database handle invalid"
    fine ← run_query D (template_sql is_public_mode user_id class_name)
    unless fine (fail_with D (minus 501) "Database query failure: ")
    result ← store_result D
    courses ← or_throw (courses_of (rows_of result) [])
    send_response (
        ("status", phrase "ok")
        ∷ ("action", phrase "GET_CLASS_TEMPLATE")
        ∷ ("data", arrays_of [] (("courses", rows courses) ∷ []))
        ∷ [])

  -- One course of `handleUploadSchedule`. `operator[]` of nlohmann::json asserts that a
  -- course has a day and a period.
  unfoldable pub insert_course : String → J.Value → M (Server D.Conn) (Unit {0})
  insert_course owner c = do
    c_name ← or_throw (J.value_string c "course_name" "有课")
    time_mask ← or_throw (J.value_int c "time_mask" (pos 0))
    given_day ← or_abort (J.field c "day_of_week")
    day_of_week ← or_throw (J.get_int given_day)
    given_period ← or_abort (J.field c "period")
    period ← or_throw (J.get_int given_period)
    start_week ← or_throw (J.value_int c "start_week" (pos 1))
    end_week ← or_throw (J.value_int c "end_week" (pos 16))
    week_type ← or_throw (J.value_int c "week_type" (pos 0))
    execute D (
        "INSERT INTO course_templates (user_id, class_identifier, course_name, day_of_week, period, time_mask, start_week, end_week, week_type) VALUES "
        ++ owner
        ++ c_name
        ++ "', "
        ++ int_to_string day_of_week
        ++ ", "
        ++ int_to_string period
        ++ ", "
        ++ to_string (to_u32 time_mask)
        ++ ", "
        ++ int_to_string start_week
        ++ ", "
        ++ int_to_string end_week
        ++ ", "
        ++ int_to_string week_type
        ++ ");")

  -- What its try block holds.
  unfoldable pub replace_courses : Bool → ℤ → String → List J.Value → M (Server D.Conn) (Unit {0})
  replace_courses is_public user_id target_class courses = do
    execute D (course_delete is_public user_id target_class)
    for_each courses (insert_course (course_owner is_public user_id target_class))
    execute D "COMMIT;"
    call (rebuild_user_schedules D user_id)
    send_response (("status", phrase "ok") ∷ ("action", phrase "UPLOAD_SCHEDULE") ∷ [])

  -- `handleUploadSchedule`
  unfoldable pub handle_upload_schedule : J.Value → M (Server D.Conn) (Unit {0})
  handle_upload_schedule json = do
    unless (J.contains json "user_id" && J.contains json "courses" && has_array J json "courses")
        (send_error (minus 11) "Param error")
    user_id ← or_throw (int_field J json "user_id")
    is_public ← or_throw (J.value_bool json "is_public" false)
    target_class ← or_throw (J.value_string json "target_class" "")
    execute D "START TRANSACTION;"
    guarded (replace_courses is_public user_id target_class (listed J D json "courses"))
        (execute D "ROLLBACK;" >> send_error (minus 502) ("Transaction failed: " ++ J.what json))
