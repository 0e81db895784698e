-- ===== src/Business/Handlers/Edit.antt =====
-- Handlers of server/business/BusinessServer.cpp that make and change activities, and that register users.
use Prim.Native.String.{String, ◌++◌}
use text.Mathlib.Text.{◌==◌ as str_eq}
use qinyunserver.Base.{length, ℕ, not, ◌&&◌, List, [], ◌∷◌, ◌++◌ as append, if◌then◌else◌}
use qinyunserver.Base.Int.{ℤ, pos, minus}
use qinyunserver.Business.Monad.{M, ◌>>=◌, ◌>>◌, pure, or_throw, unless, when, for_each}
use qinyunserver.Business.Text.{int_to_string, to_string}
use qinyunserver.Business.Interface.{JsonLib, Mysql, Calendar}
use qinyunserver.Business.Server.{
  Server, phrase, figure, record_of, send_response, send_error, fail_with, run_query, execute,
  escape_string, int_field, string_field, has_array, cached_term_start,
}
use qinyunserver.Business.Calendar.{convert_date_to_week_and_day, calculate_hour_mask}
use qinyunserver.Business.Handlers.Assign.{is_empty, listed}

-- What all the instances of an activity share.
pub record Draft : Type 0 where
  pub title : String
  pub desc : String
  pub loc : String
  pub organizer_id : ℤ
  pub dept_id : ℤ
  pub max_participants : ℤ
  pub sign_deadline : String
  pub period_type : ℤ

-- A text in quotes.
abbrev pub quoted : String → String
quoted t = "'" ++ t ++ "'"

-- The statement for one instance; the deadline as it stands there, the duration with one decimal.
abbrev pub activity_sql : Draft → String → ℕ → ℕ → String → String → String → String → String
activity_sql a deadline week hour_mask dur_buf date start_time end_time =
    "INSERT INTO activities (title, description, location, organizer_id, department_id, "
    ++ "activity_week, time_mask, max_participants, sign_deadline, status, default_duration, "
    ++ "start_date, end_date, start_time, end_time, period_type) VALUES ("
    ++ "'"
    ++ a.title
    ++ "', '"
    ++ a.desc
    ++ "', '"
    ++ a.loc
    ++ "', "
    ++ int_to_string a.organizer_id
    ++ ", "
    ++ int_to_string a.dept_id
    ++ ", "
    ++ to_string week
    ++ ", "
    ++ to_string hour_mask
    ++ ", "
    ++ int_to_string a.max_participants
    ++ ", "
    ++ deadline
    ++ ", 1, "
    ++ dur_buf
    ++ ", "
    ++ "'"
    ++ date
    ++ "', '"
    ++ date
    ++ "', '"
    ++ start_time
    ++ "', '"
    ++ end_time
    ++ "', "
    ++ int_to_string a.period_type
    ++ ");"

-- `if (!text.empty()) setClauses.push_back(name + " = '" + text + "'")`
abbrev pub text_clause : String → String → List String
text_clause name text = if str_eq text "" then [] else (name ++ " = '" ++ text ++ "'") ∷ []

-- The clauses, a comma between two of them.
unfoldable pub join : List String → String
join [] = ""
join (c ∷ cs) = c ++ (if is_empty cs then "" else ", " ++ join cs)

module _ (J : JsonLib) (D : Mysql) where
  -- The row of one user in `handleBulkRegister`.
  unfoldable pub user_row : J.Value → M (Server D.Conn) String
  user_row u = do
    given_name ← or_throw (string_field J u "name")
    name ← escape_string D given_name
    given_id ← or_throw (string_field J u "student_id")
    student_id ← escape_string D given_id
    given_password ← or_throw (string_field J u "password")
    password ← escape_string D given_password
    given_major ← or_throw (J.value_string u "major" "")
    major ← escape_string D given_major
    given_class ← or_throw (J.value_string u "class_name" "")
    class_name ← escape_string D given_class
    role_id ← or_throw (int_field J u "role_id")
    department_id ← or_throw (int_field J u "department_id")
    pure (
        "('"
        ++ name
        ++ "', '"
        ++ student_id
        ++ "', '"
        ++ password
        ++ "', "
        ++ int_to_string role_id
        ++ ", "
        ++ int_to_string department_id
        ++ ", '"
        ++ major
        ++ "', '"
        ++ class_name
        ++ "', 1)")

  -- The rows, a comma between two of them.
  unfoldable pub user_rows : List J.Value → M (Server D.Conn) String
  user_rows [] = pure ""
  user_rows (u ∷ users) = do
    row ← user_row u
    rest ← user_rows users
    pure (row ++ (if is_empty users then "" else ", " ++ rest))

  -- `handleBulkRegister`
  unfoldable pub handle_bulk_register : J.Value → M (Server D.Conn) (Unit {0})
  handle_bulk_register json = do
    unless
        (J.contains json "users"
          && has_array J json "users"
          && not (is_empty (listed J D json "users")))
        (send_error (minus 701) "Invalid mass registry block payload")
    users ← user_rows (listed J D json "users")
    fine ← run_query D (
        "INSERT INTO users (name, student_id, password_hash, role_id, department_id, major, class_name, status) VALUES "
        ++ users
        ++ " ON DUPLICATE KEY UPDATE name=VALUES(name), role_id=VALUES(role_id), major=VALUES(major), class_name=VALUES(class_name);")
    unless fine (fail_with D (minus 501) "")
    send_response (
        ("status", phrase "ok")
        ∷ ("action", phrase "BULK_REGISTER_USERS")
        ∷ ("data", record_of (("count", figure (pos (length (listed J D json "users")))) ∷ []))
        ∷ [])

  -- `handleUpdateActivity`
  unfoldable pub handle_update_activity : J.Value → M (Server D.Conn) (Unit {0})
  handle_update_activity json = do
    act_id ← or_throw (int_field J json "activity_id")
    given_title ← or_throw (J.value_string json "title" "")
    title ← escape_string D given_title
    given_desc ← or_throw (J.value_string json "description" "")
    desc ← escape_string D given_desc
    given_loc ← or_throw (J.value_string json "location" "")
    loc ← escape_string D given_loc
    max_part ← or_throw (J.value_int json "max_participants" (pos 30))
    start_date ← or_throw (J.value_string json "start_date" "")
    end_date ← or_throw (J.value_string json "end_date" "")
    start_time ← or_throw (J.value_string json "start_time" "")
    end_time ← or_throw (J.value_string json "end_time" "")
    sign_deadline ← or_throw (J.value_string json "sign_deadline" "")
    let limit =
        (if J.contains json "max_participants"
          then ("max_participants = " ++ int_to_string max_part) ∷ []
          else [])
    let dates = append (text_clause "start_date" start_date) (
        append (text_clause "end_date" end_date) (
          append (text_clause "start_time" start_time)
            (append (text_clause "end_time" end_time) (text_clause "sign_deadline" sign_deadline))))
    let set_clauses = append (text_clause "title" title) (
        append (text_clause "description" desc)
          (append (text_clause "location" loc) (append limit dates)))
    when (is_empty set_clauses) (send_error (minus 401) "No fields to update")
    fine ← run_query D (
        "UPDATE activities SET "
        ++ join set_clauses
        ++ " WHERE id = "
        ++ int_to_string act_id
        ++ ";")
    unless fine (send_error (minus 501) "Update Failure")
    send_response (("status", phrase "ok") ∷ ("action", phrase "UPDATE_ACTIVITY") ∷ [])

  module _ (T : Calendar) where
    -- One round of the loop of `handleAddActivity`; the test of the date is not looked at.
    unfoldable pub add_instance : Draft → J.Value → M (Server D.Conn) (Unit {0})
    add_instance a item = do
      start_date ← or_throw (string_field J item "date")
      start_time ← or_throw (string_field J item "start_time")
      end_time ← or_throw (string_field J item "end_time")
      term_start ← cached_term_start
      let found =
          convert_date_to_week_and_day T term_start start_date (record { week = 1; day = 1 })
      let hours = calculate_hour_mask T start_time end_time
      duration ← or_throw (J.value_double item "duration_h" J.one)
      escaped_deadline ← escape_string D a.sign_deadline
      let deadline = (if str_eq a.sign_deadline "" then "NULL" else quoted escaped_deadline)
      fine ← run_query D (
          activity_sql a deadline found.1.week hours (J.show_tenths duration) start_date start_time
            end_time)
      unless fine (execute D "ROLLBACK;" >> fail_with D (minus 503) "Database save failure: ")

    -- The loop over the instances.
    unfoldable pub add_instances : Draft → List J.Value → M (Server D.Conn) (Unit {0})
    add_instances a items = for_each items (add_instance a)

    -- `handleAddActivity`
    unfoldable pub handle_add_activity : J.Value → M (Server D.Conn) (Unit {0})
    handle_add_activity json = do
      unless (J.contains json "instances" && has_array J json "instances")
          (send_error (minus 401) "Missing activity instances array")
      given_title ← or_throw (J.value_string json "title" "活动")
      title ← escape_string D given_title
      given_desc ← or_throw (J.value_string json "description" "无描述")
      desc ← escape_string D given_desc
      given_loc ← or_throw (J.value_string json "location" "无地点")
      loc ← escape_string D given_loc
      organizer_id ← or_throw (J.value_int json "organizer_id" (pos 0))
      dept_id ← or_throw (J.value_int json "department_id" (pos 1))
      max_participants ← or_throw (J.value_int json "max_participants" (pos 30))
      sign_deadline ← or_throw (J.value_string json "sign_deadline" "")
      period_type ← or_throw (J.value_int json "period_type" (pos 0))
      execute D "START TRANSACTION;"
      add_instances
          (record {
            title = title;
            desc = desc;
            loc = loc;
            organizer_id = organizer_id;
            dept_id = dept_id;
            max_participants = max_participants;
            sign_deadline = sign_deadline;
            period_type = period_type;
          })
          (listed J D json "instances")
      execute D "COMMIT;"
      send_response (
          ("status", phrase "ok")
          ∷ ("action", phrase "ADD_ACTIVITY")
          ∷ ("message", phrase "批量活动已生成")
          ∷ [])
