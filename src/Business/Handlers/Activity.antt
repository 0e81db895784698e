-- ===== src/Business/Handlers/Activity.antt =====
-- Handlers of server/business/BusinessServer.cpp on activities: settling, applying, approving, leaving,
-- deleting and changing.
use Prim.Native.String.{String, ◌++◌}
use qinyunserver.Base.{ℕ, zero, suc, ◌&&◌, Option, none, some, List, [], ◌∷◌}
use qinyunserver.Base.Int.{ℤ, pos, minus, eq_ℤ, ltb_ℤ, leb_ℤ}
use qinyunserver.Business.Monad.{M, ◌>>=◌, ◌>>◌, pure, or_throw, unless, when, for_each, from}
use qinyunserver.Business.Text.{int_to_string, stoi}
use qinyunserver.Business.Interface.{JsonLib, Mysql, Row}
use qinyunserver.Business.Server.{
  phrase, number, Server, role_captain, role_minister, send_response, send_error, run_query,
  execute, store_result, mysql_error, escape_string, int_field, is_authorized,
}

abbrev pub first_row : Option (List Row) → Option Row
first_row none = none
first_row (some []) = none
first_row (some (r ∷ rs)) = some r

-- `row[i]`, read as an int; a null field or a missing column is no number.
abbrev pub column : ℕ → Row → Option String
column i [] = none
column zero (x ∷ xs) = x
column (suc i) (x ∷ xs) = column i xs

abbrev pub int_column : ℕ → Row → Option ℤ
int_column i r = elim (column i r) [ none ↦ none | some x ↦ stoi x ]

module _ (J : JsonLib) (D : Mysql) where
  abbrev pub Handler : Type 0
  Handler = J.Value → M (Server D.Conn) (Unit {0})

  abbrev pub double_field : J.Value → String → Option J.Double
  double_field v name = elim (J.field v name) [ none ↦ none | some x ↦ J.get_double x ]

  -- One member's result in `handleSettleActivity`.
  unfoldable pub settle_member : ℤ → J.Value → M (Server D.Conn) (Unit {0})
  settle_member act_id r = do
    duration ← or_throw (double_field r "duration")
    status ← or_throw (int_field J r "status")
    user_id ← or_throw (int_field J r "user_id")
    let head = "UPDATE activity_members SET duration_hours = " ++ J.show_double duration
    let attended = ", is_attended = " ++ int_to_string status
    let key = ", sign_in_status = 1 WHERE activity_id = " ++ int_to_string act_id
    let user = " AND user_id = " ++ int_to_string user_id ++ ";"
    fine ← run_query D (head ++ attended ++ key ++ user)
    unless fine (
        execute D "ROLLBACK;"
        >> send_error (minus 502) "Failed to update member, transaction rolled back.")

  -- The activity's own update there.
  unfoldable pub close_activity : ℤ → M (Server D.Conn) (Unit {0})
  close_activity act_id = do
    fine ← run_query D ("UPDATE activities SET status = 3 WHERE id = " ++ int_to_string act_id)
    unless fine (
        execute D "ROLLBACK;"
        >> send_error (minus 503) "Failed to update activity status, rolled back.")

  -- All that stands between START TRANSACTION and COMMIT there.
  unfoldable pub settle_results : ℤ → List J.Value → M (Server D.Conn) (Unit {0})
  settle_results act_id results = for_each results (settle_member act_id) >> close_activity act_id

  -- `handleSettleActivity`
  unfoldable pub handle_settle_activity : Handler
  handle_settle_activity json = do
    authorized ← or_throw (is_authorized J json role_captain)
    unless authorized (send_error (minus 403) "只有队长或老师可以进行结算")
    act_id ← or_throw (int_field J json "activity_id")
    results ← or_throw (J.field json "results")
    execute D "START TRANSACTION;"
    settle_results act_id (J.elements results)
    execute D "COMMIT;"
    send_response (("status", phrase "ok") ∷ ("message", phrase "结算完成") ∷ [])

  -- The text of the check that `handleApplyActivity` makes first.
  abbrev pub apply_check : ℤ → String
  apply_check act_id =
      "SELECT status, max_participants, "
      ++ "(SELECT COUNT(*) FROM activity_members WHERE activity_id = "
      ++ int_to_string act_id
      ++ ") as current_count "
      ++ "FROM activities WHERE id = "
      ++ int_to_string act_id
      ++ ";"

  abbrev pub apply_insert : ℤ → ℤ → String → String
  apply_insert act_id user_id reason =
      "INSERT INTO activity_applications (activity_id, user_id, apply_reason, status) "
      ++ "VALUES ("
      ++ int_to_string act_id
      ++ ", "
      ++ int_to_string user_id
      ++ ", '"
      ++ reason
      ++ "', 0) "
      ++ "ON DUPLICATE KEY UPDATE status = 0, apply_reason = '"
      ++ reason
      ++ "';"

  -- `handleApplyActivity`
  unfoldable pub handle_apply_activity : Handler
  handle_apply_activity json = do
    unless (J.contains json "activity_id" && J.contains json "user_id")
        (send_error (minus 801) "Missing activity_id or user_id")
    act_id ← or_throw (int_field J json "activity_id")
    user_id ← or_throw (int_field J json "user_id")
    given ← or_throw (J.value_string json "reason" "")
    reason ← escape_string D given
    fine ← run_query D (apply_check act_id)
    unless fine (send_error (minus 501) "Database pre-check failure")
    res ← store_result D
    row ← from (first_row res) (send_error (minus 802) "Activity does not exist") pure
    status ← or_throw (int_column 0 row)
    max_part ← or_throw (int_column 1 row)
    current_count ← or_throw (int_column 2 row)
    unless (eq_ℤ status (pos 1)) (send_error (minus 803) "报名失败：活动已不再招募阶段")
    when (ltb_ℤ (pos 0) max_part && leb_ℤ max_part current_count)
        (send_error (minus 804) "报名失败：活动名额已满")
    saved ← run_query D (apply_insert act_id user_id reason)
    problem ← mysql_error D
    unless saved (send_error (minus 501) ("Failed to submit application: " ++ problem))
    send_response (
        ("status", phrase "ok")
        ∷ ("action", phrase "APPLY_ACTIVITY")
        ∷ ("message", phrase "报名申请已提交，等待审批")
        ∷ [])

  -- `handleApproveApplication`; no result of a statement is looked at.
  unfoldable pub handle_approve_application : Handler
  handle_approve_application json = do
    authorized ← or_throw (is_authorized J json role_minister)
    unless authorized (send_error (minus 403) "权限不足")
    app_id ← or_throw (int_field J json "application_id")
    status ← or_throw (int_field J json "status")
    execute D "START TRANSACTION;"
    execute D (
        "UPDATE activity_applications SET status = "
        ++ int_to_string status
        ++ " WHERE id = "
        ++ int_to_string app_id
        ++ ";")
    when (eq_ℤ status (pos 1)) (
        execute D (
          "INSERT INTO activity_members (activity_id, user_id, assign_type) SELECT activity_id, user_id, 2 FROM activity_applications WHERE id = "
          ++ int_to_string app_id
          ++ ";"))
    execute D "COMMIT;"
    send_response (("status", phrase "ok") ∷ ("message", phrase "审批已更新") ∷ [])

  -- `handleDeleteActivity`
  unfoldable pub handle_delete_activity : Handler
  handle_delete_activity json = do
    act_id ← or_throw (int_field J json "activity_id")
    fine ← run_query D ("DELETE FROM activities WHERE id = " ++ int_to_string act_id ++ ";")
    unless fine (send_error (minus 501) "Delete Failure")
    send_response (("status", phrase "ok") ∷ ("action", phrase "DELETE_ACTIVITY") ∷ [])

  abbrev pub leave_check : ℤ → String
  leave_check activity_id =
      "SELECT status FROM activities WHERE id = " ++ int_to_string activity_id ++ ";"

  abbrev pub leave_delete : ℤ → ℤ → String
  leave_delete activity_id user_id =
      "DELETE FROM activity_members WHERE activity_id = "
      ++ int_to_string activity_id
      ++ " AND user_id = "
      ++ int_to_string user_id
      ++ ";"

  -- The status of the first row, or 0.
  abbrev pub status_of : List Row → Option ℤ
  status_of [] = some (pos 0)
  status_of (r ∷ rs) = int_column 0 r

  -- `handleLeaveActivity`
  unfoldable pub handle_leave_activity : Handler
  handle_leave_activity json = do
    unless (J.contains json "activity_id" && J.contains json "user_id")
        (send_error (minus 811) "Missing activity_id or user_id")
    activity_id ← or_throw (int_field J json "activity_id")
    user_id ← or_throw (int_field J json "user_id")
    fine ← run_query D (leave_check activity_id)
    unless fine (send_error (minus 501) "Query active status failure")
    res ← store_result D
    rows ← from res (send_error (minus 501) "Query active status field lock failure") pure
    status ← or_throw (status_of rows)
    unless (eq_ℤ status (pos 1)) (
        send_error (minus 812)
          "Leave request denied: Cannot cancel assignment after activity starts")
    deleted ← run_query D (leave_delete activity_id user_id)
    unless deleted (send_error (minus 501) "Database deletion breakdown")
    send_response (
        ("status", phrase "ok")
        ∷ ("code", number (pos 0))
        ∷ ("action", phrase "LEAVE_ACTIVITY")
        ∷ ("message", phrase "Successfully left the activity")
        ∷ [])
