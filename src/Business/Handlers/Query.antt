-- ===== src/Business/Handlers/Query.antt =====
-- Handlers of server/business/BusinessServer.cpp that only ask the database: classes, departments,
-- activities and members.
use Prim.Native.String.{String, ◌++◌}
use qinyunserver.Base.{Bool, false, not, ◌&&◌, Option, none, some, List, [], ◌∷◌, if◌then◌else◌}
use qinyunserver.Base.Int.{ℤ, pos, minus, eq_ℤ}
use qinyunserver.Business.Monad.{M, ◌>>=◌, ◌>>◌, pure, or_throw, unless, from}
use qinyunserver.Business.Text.{int_to_string}
use qinyunserver.Business.Interface.{JsonLib, Mysql}
use qinyunserver.Business.Server.{
  phrase, number, arrays_of, names, rows, title, Server, send_response, send_error, fail_with,
  run_query, store_result, need_connection, int_field,
}
use qinyunserver.Business.Handlers.Activity.{column}
use qinyunserver.Business.Handlers.Rows.{
  rows_of, each, Reader, int_at, int_or, unsigned_at, text_or, decimal_or_zero, float_or_zero,
  read_object,
}

module _ (J : JsonLib) (D : Mysql) where
  -- `handleGetRegisteredClasses`; a null name fails as it is put into the array.
  unfoldable pub handle_get_registered_classes : J.Value → M (Server D.Conn) (Unit {0})
  handle_get_registered_classes json = do
    need_connection D "Database handle down"
    fine ← run_query D "SELECT class_name FROM view_major_class_stats ORDER BY class_name ASC;"
    unless fine (fail_with D (minus 501) "Failed to pull registered classes: ")
    res ← store_result D
    class_list ← or_throw (each (column 0) (rows_of res))
    send_response (
        ("status", phrase "ok")
        ∷ ("code", number (pos 0))
        ∷ ("action", phrase "GET_REGISTERED_CLASSES")
        ∷ ("data", arrays_of [] (("classes", names class_list) ∷ []))
        ∷ [])

  -- `handleGetDepartments`
  unfoldable pub handle_get_departments : J.Value → M (Server D.Conn) (Unit {0})
  handle_get_departments json = do
    need_connection D "Database down"
    fine ← run_query D "SELECT id, name FROM departments ORDER BY sort_order ASC;"
    unless fine (fail_with D (minus 501) "Failed to query departments: ")
    result ← store_result D
    found ← from result (send_error (minus 501) "Failed to get departments result") pure
    departments ←
        or_throw (each (read_object (("did", int_at 0) ∷ ("text", text_or 1 "") ∷ [])) found)
    send_response (
        ("status", phrase "ok")
        ∷ ("code", number (pos 0))
        ∷ ("action", phrase "GET_DEPARTMENTS")
        ∷ ("data", arrays_of [] (("departments", rows departments) ∷ []))
        ∷ [])

  abbrev pub activity_columns : List (String × Reader)
  activity_columns =
      ("activity_id", int_at 0)
      ∷ ("title", text_or 1 "")
      ∷ ("description", text_or 2 "")
      ∷ ("location", text_or 3 "")
      ∷ ("organizer_id", int_or 4 (pos 0))
      ∷ ("department_id", int_or 5 (pos 0))
      ∷ ("activity_week", int_at 6)
      ∷ ("time_mask", unsigned_at 7)
      ∷ ("max_participants", int_or 8 (pos 0))
      ∷ ("sign_deadline", text_or 9 "")
      ∷ ("status", int_or 10 (pos 0))
      ∷ ("default_duration", decimal_or_zero J 11)
      ∷ ("start_date", text_or 12 "")
      ∷ ("end_date", text_or 13 "")
      ∷ ("start_time", text_or 14 "")
      ∷ ("end_time", text_or 15 "")
      ∷ ("period_type", int_or 16 (pos 0))
      ∷ []

  -- `handleGetActivities`
  unfoldable pub handle_get_activities : J.Value → M (Server D.Conn) (Unit {0})
  handle_get_activities json = do
    need_connection D "Database Invalid"
    fine ←
        run_query D
          "SELECT id, title, description, location, organizer_id, department_id, activity_week, time_mask, max_participants, sign_deadline, status, default_duration, start_date, end_date, start_time, end_time, period_type FROM activities WHERE status = 1;"
    unless fine (send_error (minus 501) "Query Failure")
    result ← store_result D
    activity_list ← or_throw (each (read_object activity_columns) (rows_of result))
    send_response (
        ("status", phrase "ok")
        ∷ ("code", number (pos 0))
        ∷ ("action", phrase "GET_ACTIVITIES")
        ∷ ("data", arrays_of [] (("activities", rows activity_list) ∷ []))
        ∷ [])

  abbrev pub management_columns : List (String × Reader)
  management_columns =
      ("activity_id", int_at 0)
      ∷ ("title", text_or 1 "")
      ∷ ("description", text_or 2 "")
      ∷ ("location", text_or 3 "")
      ∷ ("activity_week", int_at 4)
      ∷ ("time_mask", unsigned_at 5)
      ∷ ("max_participants", int_at 6)
      ∷ ("status", int_at 7)
      ∷ ("sign_deadline", text_or 8 "")
      ∷ ("default_duration", decimal_or_zero J 9)
      ∷ ("start_date", text_or 10 "")
      ∷ ("end_date", text_or 11 "")
      ∷ ("start_time", text_or 12 "")
      ∷ ("end_time", text_or 13 "")
      ∷ ("period_type", int_or 14 (pos 0))
      ∷ ("assigned_count", int_at 15)
      ∷ []

  -- `handleGetManagementActivities`
  unfoldable pub handle_get_management_activities : J.Value → M (Server D.Conn) (Unit {0})
  handle_get_management_activities json = do
    fine ←
        run_query D
          "SELECT a.id, a.title, a.description, a.location, a.activity_week, a.time_mask, a.max_participants, a.status, a.sign_deadline, a.default_duration, a.start_date, a.end_date, a.start_time, a.end_time, a.period_type, COUNT(am.user_id) AS assigned_count FROM activities a LEFT JOIN activity_members am ON a.id = am.activity_id GROUP BY a.id ORDER BY a.id DESC;"
    unless fine (send_error (minus 501) "Query Failure")
    result ← store_result D
    activity_list ← or_throw (each (read_object management_columns) (rows_of result))
    send_response (
        ("status", phrase "ok")
        ∷ ("code", number (pos 0))
        ∷ ("action", phrase "GET_MANAGEMENT_ACTIVITIES")
        ∷ ("data", arrays_of [] (("activities", rows activity_list) ∷ []))
        ∷ [])

  -- The restriction of a minister's view; `none` is an exception.
  abbrev pub department_filter : J.Value → ℤ → Option String
  department_filter json role_id =
      if eq_ℤ role_id (pos 30)
        && (J.contains json "request_user_dept" && not (is_null_field json "request_user_dept"))
      then elim (int_field J json "request_user_dept") [
        | none ↦ none
        | some dept_id ↦ some (" WHERE u.department_id = " ++ int_to_string dept_id)
      ]
      else some ""
    where
      is_null_field : J.Value → String → Bool
      is_null_field v name = elim (J.field v name) [ none ↦ false | some x ↦ J.is_null x ]

  abbrev pub member_columns : List (String × Reader)
  member_columns =
      ("user_id", int_or 0 (pos 0))
      ∷ ("student_id", text_or 1 "")
      ∷ ("name", text_or 2 "")
      ∷ ("major", text_or 3 "")
      ∷ ("class_name", text_or 4 "")
      ∷ ("role_id", int_or 5 (pos 40))
      ∷ ("status", int_or 6 (pos 1))
      ∷ ("dept_name", text_or 7 "未分配")
      ∷ ("total_count", int_or 8 (pos 0))
      ∷ ("total_hours", float_or_zero J 9)
      ∷ ("current_state", λ row. some (title "free"))
      ∷ []

  abbrev pub members_sql : String → String
  members_sql sql_filter =
      "SELECT u.id, u.student_id, u.name, u.major, u.class_name, u.role_id, u.status, "
      ++ "d.name AS dept_name, "
      ++ "COALESCE(COUNT(CASE WHEN am.sign_in_status IN (1, 2) AND am.is_attended = 1 THEN am.id END), 0) AS total_count, "
      ++ "COALESCE(SUM(CASE WHEN am.sign_in_status IN (1, 2) AND am.is_attended = 1 THEN am.duration_hours END), 0.0) AS total_hours "
      ++ "FROM users u " ++ "LEFT JOIN departments d ON u.department_id = d.id "
      ++ "LEFT JOIN activity_members am ON u.id = am.user_id " ++ sql_filter ++ " "
      ++ "GROUP BY u.id, u.student_id, u.name, u.major, u.class_name, u.role_id, u.status, d.name;"

  -- `handleGetMembers`
  unfoldable pub handle_get_members : J.Value → M (Server D.Conn) (Unit {0})
  handle_get_members json = do
    unless (J.contains json "request_user_role") (send_error (minus 912) "Missing rbac parameters")
    role_id ← or_throw (int_field J json "request_user_role")
    sql_filter ← or_throw (department_filter json role_id)
    need_connection D "Database link down"
    fine ← run_query D (members_sql sql_filter)
    unless fine (fail_with D (minus 501) "Failed to query members: ")
    res ← store_result D
    member_list ← or_throw (each (read_object member_columns) (rows_of res))
    send_response (
        ("status", phrase "ok")
        ∷ ("code", number (pos 0))
        ∷ ("action", phrase "GET_MEMBERS")
        ∷ ("data", arrays_of [] (("members", rows member_list) ∷ []))
        ∷ [])

  -- `handleGetAssignedMembers`
  unfoldable pub handle_get_assigned_members : J.Value → M (Server D.Conn) (Unit {0})
  handle_get_assigned_members json = do
    unless (J.contains json "activity_id") (send_error (minus 901) "Missing activity_id")
    activity_id ← or_throw (int_field J json "activity_id")
    need_connection D "Database Invalid"
    fine ← run_query D (
        "SELECT u.id, u.name, u.student_id, u.major, u.class_name, am.duration_hours, am.is_attended "
        ++ "FROM activity_members am "
        ++ "INNER JOIN users u ON am.user_id = u.id "
        ++ "WHERE am.activity_id = "
        ++ int_to_string activity_id
        ++ ";")
    unless fine (send_error (minus 501) "Database query failure for assigned members")
    result ← store_result D
    member_list ← or_throw (
        each
          (read_object (
            ("user_id", int_at 0)
            ∷ ("name", text_or 1 "")
            ∷ ("student_id", text_or 2 "")
            ∷ ("major", text_or 3 "")
            ∷ ("class_name", text_or 4 "")
            ∷ ("duration_hours", decimal_or_zero J 5)
            ∷ ("is_attended", int_or 6 (pos 1))
            ∷ []))
          (rows_of result))
    send_response (
        ("status", phrase "ok")
        ∷ ("code", number (pos 0))
        ∷ ("action", phrase "GET_ASSIGNED_MEMBERS")
        ∷ ("data", arrays_of [] (("members", rows member_list) ∷ []))
        ∷ [])
