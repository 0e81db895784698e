-- ===== src/Business/Handlers/Assign.antt =====
-- Handlers of server/business/BusinessServer.cpp that put members on an activity.
use Prim.Native.String.{String, ◌++◌}
use qinyunserver.Base.{
  length, if◌then◌else◌, ℕ, suc, Bool, true, false, ◌&&◌, none, some, List, [], ◌∷◌,
}
use qinyunserver.Base.Int.{ℤ, pos, minus}
use qinyunserver.Business.Monad.{M, ◌>>=◌, ◌>>◌, pure, or_throw, unless, when}
use qinyunserver.Business.Text.{int_to_string, to_string}
use qinyunserver.Business.Interface.{JsonLib, Mysql}
use qinyunserver.Business.Server.{
  phrase, number, figure, record_of, Server, send_response, send_error, run_query, execute,
  fail_with, need_connection, int_field, has_array,
}

abbrev pub is_empty : {A : Type 0} → List A → Bool
is_empty [] = true
is_empty (x ∷ xs) = false

module _ (J : JsonLib) (D : Mysql) where
  -- `jsonObj["user_ids"]`, an array.
  abbrev pub listed : J.Value → String → List J.Value
  listed json name = elim (J.field json name) [ none ↦ [] | some x ↦ J.elements x ]

  abbrev pub assign_sql : ℤ → ℤ → String
  assign_sql activity_id user_id =
      "INSERT INTO activity_members (activity_id, user_id, assign_type, sign_in_status, duration_hours, is_attended) "
      ++ "VALUES ("
      ++ int_to_string activity_id
      ++ ", "
      ++ int_to_string user_id
      ++ ", 1, 0, 0.0, 0) "
      ++ "ON DUPLICATE KEY UPDATE assign_type = 1;"

  -- One round of the loop: it returns from the handler where the statement fails.
  unfoldable pub assign_member : ℤ → J.Value → M (Server D.Conn) (Unit {0})
  assign_member activity_id id_json = do
    user_id ← or_throw (J.get_int id_json)
    fine ← run_query D (assign_sql activity_id user_id)
    unless fine (execute D "ROLLBACK;" >> fail_with D (minus 501) "Transaction rollback due to: ")

  -- The loop of `handleBatchAssignMembers`, with `assignedCount`.
  unfoldable pub assign_members : ℤ → List J.Value → ℕ → M (Server D.Conn) ℕ
  assign_members activity_id [] assigned_count = pure assigned_count
  assign_members activity_id (id_json ∷ ids) assigned_count =
      assign_member activity_id id_json >> assign_members activity_id ids (suc assigned_count)

  -- `handleBatchAssignMembers`
  unfoldable pub handle_batch_assign_members : J.Value → M (Server D.Conn) (Unit {0})
  handle_batch_assign_members json = do
    unless
        (J.contains json "activity_id"
          && (J.contains json "user_ids" && has_array J json "user_ids"))
        (send_error (minus 380) "Missing parameters for batch assignment")
    activity_id ← or_throw (int_field J json "activity_id")
    when (is_empty (listed json "user_ids"))
        (send_error (minus 381) "Purged user IDs array is empty")
    need_connection D "Database link closed"
    execute D "START TRANSACTION;"
    assigned_count ← assign_members activity_id (listed json "user_ids") 0
    execute D "COMMIT;"
    send_response (
        ("status", phrase "ok")
        ∷ ("code", number (pos 0))
        ∷ ("action", phrase "BATCH_ASSIGN_MEMBERS")
        ∷ (
          "message",
          phrase ("Successfully assigned " ++ to_string assigned_count ++ " members to activity."),
        )
        ∷ ("data", record_of (("assigned_count", figure (pos assigned_count)) ∷ []))
        ∷ [])

  -- The rows of the insert of `handleConfirmAssign`, a comma between two of them.
  unfoldable pub assign_rows : ℤ → List J.Value → M (Server D.Conn) String
  assign_rows activity_id [] = pure ""
  assign_rows activity_id (id_json ∷ ids) = do
    user_id ← or_throw (J.get_int id_json)
    rest ← assign_rows activity_id ids
    pure (
        "("
        ++ int_to_string activity_id
        ++ ", "
        ++ int_to_string user_id
        ++ ", 1, 0)"
        ++ (if is_empty ids then "" else ", " ++ rest))

  -- `handleConfirmAssign`; `is_array` of a missing field fails its assertion.
  unfoldable pub handle_confirm_assign : J.Value → M (Server D.Conn) (Unit {0})
  handle_confirm_assign json = do
    unless (J.contains json "activity_id")
        (send_error (minus 301) "Missing or invalid activity_id/user_ids")
    user_ids ← or_throw (J.field json "user_ids")
    unless (J.is_array user_ids) (send_error (minus 301) "Missing or invalid activity_id/user_ids")
    activity_id ← or_throw (int_field J json "activity_id")
    when (is_empty (J.elements user_ids)) (send_error (minus 302) "User IDs array cannot be empty")
    rows ← assign_rows activity_id (J.elements user_ids)
    fine ← run_query D (
        "INSERT INTO activity_members (activity_id, user_id, assign_type, sign_in_status) VALUES "
        ++ rows ++ " ON DUPLICATE KEY UPDATE updated_at = NOW();")
    unless fine (send_error (minus 501) "Database Bulk Insert Failure")
    send_response (
        ("status", phrase "ok")
        ∷ ("code", number (pos 0))
        ∷ ("action", phrase "CONFIRM_ASSIGN")
        ∷ (
          "message",
          phrase
              ("Successfully deployed " ++ to_string (length (J.elements user_ids)) ++ " members."),
        )
        ∷ [])
