-- ===== src/Business/Handlers/Member.antt =====
-- Handlers of server/business/BusinessServer.cpp on members: the login and deleting.
use Prim.Native.String.{String, ◌++◌}
use text.Mathlib.Text.{◌==◌ as str_eq}
use qinyunserver.Base.{◌&&◌, Option, none, some, List, [], ◌∷◌, if◌then◌else◌}
use qinyunserver.Base.Int.{ℤ, pos, minus, eq_ℤ}
use qinyunserver.Business.Monad.{M, ◌>>=◌, ◌>>◌, pure, or_throw, unless, when}
use qinyunserver.Business.Text.{int_to_string, stoi}
use qinyunserver.Business.Interface.{JsonLib, Mysql, Row}
use qinyunserver.Business.Server.{
  phrase, number, figure, title, record_of, Server, send_response, send_error, fail_with, run_query,
  execute, store_result, affected_rows, need_connection, escape_string, int_field, string_field,
  has_array, has_string,
}
use qinyunserver.Business.Handlers.Activity.{column, int_column, first_row}
use qinyunserver.Business.Handlers.Assign.{is_empty, listed}

-- `row[i] ? row[i] : ""`
abbrev pub text_or_empty : Option String → String
text_or_empty none = ""
text_or_empty (some t) = t

-- `row[i] ? std::stoi(row[i]) : 0`
abbrev pub int_or_zero : Option String → Option ℤ
int_or_zero none = some (pos 0)
int_or_zero (some t) = stoi t

module _ (J : JsonLib) (D : Mysql) where
  -- The statement of `handleLogin`.
  abbrev pub login_sql : String → String
  login_sql student_id =
      "SELECT u.id, u.name, u.password_hash, u.role_id, u.department_id,u.class_name, u.status FROM users u WHERE u.student_id = '"
      ++ student_id ++ "';"

  -- `handleLogin` behind the query: the row of the user, or none.
  unfoldable pub login_as : String → String → Option Row → M (Server D.Conn) (Unit {0})
  login_as student_id password none = send_error (minus 102) "Student ID does not exist"
  login_as student_id password (some row) = do
    db_user_id ← or_throw (int_column 0 row)
    let db_name = text_or_empty (column 1 row)
    let db_pwd = text_or_empty (column 2 row)
    db_role_id ← or_throw (int_column 3 row)
    db_dept_id ← or_throw (int_or_zero (column 4 row))
    let cls_name = text_or_empty (column 5 row)
    db_status ← or_throw (int_column 6 row)
    when (eq_ℤ db_status (pos 0)) (send_error (minus 103) "This account has been banned")
    unless (str_eq password db_pwd) (send_error (minus 104) "Incorrect password")
    send_response (
        ("status", phrase "ok")
        ∷ ("code", number (pos 0))
        ∷ ("action", phrase "LOGIN")
        ∷ (
          "data",
          record_of (
              ("user_id", figure db_user_id)
              ∷ ("name", title db_name)
              ∷ ("student_id", title student_id)
              ∷ ("role_id", figure db_role_id)
              ∷ ("department_id", figure db_dept_id)
              ∷ ("class_name", title cls_name)
              ∷ ("message", title ("Welcome back, " ++ db_name))
              ∷ []),
        )
        ∷ [])

  -- `handleLogin`
  unfoldable pub handle_login : J.Value → M (Server D.Conn) (Unit {0})
  handle_login json = do
    unless (has_string J json "student_id" && has_string J json "password")
        (send_error (minus 101) "Missing or invalid student_id/password")
    student_id ← or_throw (string_field J json "student_id")
    password ← or_throw (string_field J json "password")
    need_connection D "Internal Database Handle Invalid"
    escaped_student_id ← escape_string D student_id
    fine ← run_query D (login_sql escaped_student_id)
    unless fine (send_error (minus 501) "Database Query Failure")
    result ← store_result D
    login_as student_id password (first_row result)

  -- The statement of `handleDeleteMember`, and its failure.
  unfoldable pub delete_user : ℤ → M (Server D.Conn) (Unit {0})
  delete_user target_id = do
    fine ← run_query D ("DELETE FROM users WHERE id = " ++ int_to_string target_id ++ ";")
    unless fine (execute D "ROLLBACK;" >> fail_with D (minus 501) "Database execution break: ")

  -- `handleDeleteMember`
  unfoldable pub handle_delete_member : J.Value → M (Server D.Conn) (Unit {0})
  handle_delete_member json = do
    unless (J.contains json "target_user_id")
        (send_error (minus 911) "Missing target_user_id parameter")
    target_id ← or_throw (int_field J json "target_user_id")
    need_connection D "Database link down"
    execute D "START TRANSACTION;"
    delete_user target_id
    execute D "COMMIT;"
    send_response (
        ("status", phrase "ok")
        ∷ ("code", number (pos 0))
        ∷ ("action", phrase "DELETE_MEMBER")
        ∷ ("message", phrase "Member and all related records purged successfully.")
        ∷ [])

  -- The list of `handleBatchDeleteMembers`, behind its first number.
  unfoldable pub join_ids : List J.Value → M (Server D.Conn) String
  join_ids [] = pure ""
  join_ids (id_json ∷ ids) = do
    id ← or_throw (J.get_int id_json)
    rest ← join_ids ids
    pure (int_to_string id ++ (if is_empty ids then "" else "," ++ rest))

  -- `handleBatchDeleteMembers`
  unfoldable pub handle_batch_delete_members : J.Value → M (Server D.Conn) (Unit {0})
  handle_batch_delete_members json = do
    unless (has_array J json "target_user_ids")
        (send_error (minus 913) "Missing target_user_ids array parameter")
    when (is_empty (listed J D json "target_user_ids"))
        (send_error (minus 914) "Target IDs array is empty")
    need_connection D "Database link down"
    id_list ← join_ids (listed J D json "target_user_ids")
    fine ← run_query D ("DELETE FROM users WHERE id IN (" ++ id_list ++ ");")
    unless fine (fail_with D (minus 501) "Batch delete failed: ")
    affected ← affected_rows D
    send_response (
        ("status", phrase "ok")
        ∷ ("code", number (pos 0))
        ∷ ("action", phrase "BATCH_DELETE_MEMBERS")
        ∷ ("message", phrase "Batch purge completed successfully.")
        ∷ ("data", record_of (("affected_rows", figure affected) ∷ []))
        ∷ [])

  -- `handleUnknownAction`
  unfoldable pub handle_unknown_action : J.Value → M (Server D.Conn) (Unit {0})
  handle_unknown_action json = do
    action ← or_throw (J.value_string json "action" "(missing)")
    send_error (minus 99) ("Unknown system action route: '" ++ action ++ "'")
