-- ===== src/Business/Handlers/Spread.antt =====
-- `handleBatchApplyClassTemplate` of server/business/BusinessServer.cpp: the courses of a class for its
-- users.
use Prim.Native.String.{String, ◌++◌}
use qinyunserver.Base.{
  length, ℕ, ◌+◌, ◌*◌, ltb, not, ◌==◌, map, ◌%◌, ◌^◌, ◌&&◌, ◌||◌, Bool, some, List, [], ◌∷◌,
  if◌then◌else◌,
}
use qinyunserver.Base.Int.{ℤ, pos, negsuc, minus, pos_part, neg_part, sub_ℕ, eq_ℤ, leb_ℤ}
use qinyunserver.Business.Monad.{M, ◌>>=◌, ◌>>◌, pure, or_throw, unless, for_each, from}
use qinyunserver.Business.Text.{int_to_string, to_string}
use qinyunserver.Business.Interface.{JsonLib, Mysql, Row}
use qinyunserver.Business.Server.{
  Server, phrase, number, figure, record_of, send_response, send_error, fail_with, run_query,
  execute, store_result, need_connection, escape_string, string_field, has_string,
}
use qinyunserver.Business.Bits.{or_bits}
use qinyunserver.Business.Schedule.{weeks}
use qinyunserver.Business.Handlers.Activity.{int_column}
use qinyunserver.Business.Handlers.Rows.{rows_of, each}

-- The rules of `handleBatchApplyClassTemplate`.
pub record ClassRule : Type 0 where
  pub day_of_week : ℤ
  pub mask : ℕ

abbrev pub class_template_sql : String → String
class_template_sql class_name =
    "SELECT day_of_week, period, start_week, end_week, week_type "
    ++ "FROM course_templates WHERE class_identifier = '" ++ class_name ++ "' AND user_id IS NULL;"

abbrev pub class_users_sql : String → String
class_users_sql class_name =
    "SELECT id FROM users WHERE class_name = '" ++ class_name
    ++ "' AND role_id >= 20 AND status = 1;"

abbrev pub rule_sql : ℤ → ℕ → ClassRule → String
rule_sql uid w rule =
    "INSERT INTO schedules (user_id, week_number, day_of_week, day_bitmask) "
    ++ "VALUES ("
    ++ int_to_string uid
    ++ ", "
    ++ to_string w
    ++ ", "
    ++ int_to_string rule.day_of_week
    ++ ", "
    ++ to_string rule.mask
    ++ ") "
    ++ "ON DUPLICATE KEY UPDATE day_bitmask = "
    ++ to_string rule.mask
    ++ ";"

-- `1u << bitIndex`; a shift by less than 0 or by more than 31 has no defined result.
abbrev pub course_bit : ℤ → ℤ → ℕ
course_bit day_of_week period = shifted (
    sub_ℕ (pos_part day_of_week * 6 + pos_part period)
      (neg_part day_of_week * 6 + neg_part period + 7))
  where
    shifted : ℤ → ℕ
    shifted (pos n) = if ltb n 32 then 2 ^ n else 0
    shifted (negsuc n) = 0

-- The tests of a course for one week.
abbrev pub covers : ℤ → ℤ → ℤ → ℕ → Bool
covers start_week end_week week_type w =
    (leb_ℤ start_week (pos w) && leb_ℤ (pos w) end_week)
    && (eq_ℤ week_type (pos 0)
        || (eq_ℤ week_type (pos 1) && not (w % 2 == 0) || eq_ℤ week_type (pos 2) && w % 2 == 0))

-- One course, put into `weeklyMasks`.
abbrev pub put_course : (ℕ → Bool) → ℕ → List ℕ → List ℕ → List ℕ
put_course covered bit (w ∷ ws) (mask ∷ masks) =
    (if covered w then or_bits 32 mask bit else mask) ∷ put_course covered bit ws masks
put_course covered bit _ masks = masks

module _ (J : JsonLib) (D : Mysql) where
  -- The weeks of one rule for one user in `handleBatchApplyClassTemplate`.
  unfoldable pub apply_week : ℤ → ClassRule → ℕ → M (Server D.Conn) (Unit {0})
  apply_week uid rule w = do
    fine ← run_query D (rule_sql uid w rule)
    unless fine (execute D "ROLLBACK;" >> fail_with D (minus 503) "SQL Error: ")

  -- The loops over the users, the rules and the weeks.
  unfoldable pub apply_rules : List ClassRule → List ℤ → M (Server D.Conn) (Unit {0})
  apply_rules rules user_ids =
      for_each user_ids (λ uid. for_each rules (λ rule. for_each (weeks D) (apply_week uid rule)))

  -- The loop over the rows of the template; what it computes is never read.
  unfoldable pub weekly_masks : List Row → List ℕ → M (Server D.Conn) (List ℕ)
  weekly_masks [] masks = pure masks
  weekly_masks (row ∷ rs) masks = do
    day_of_week ← or_throw (int_column 0 row)
    period ← or_throw (int_column 1 row)
    start_week ← or_throw (int_column 2 row)
    end_week ← or_throw (int_column 3 row)
    week_type ← or_throw (int_column 4 row)
    weekly_masks rs (
        put_course (covers start_week end_week week_type) (course_bit day_of_week period) (weeks D)
          masks)

  -- `handleBatchApplyClassTemplate`; nothing is put into its vector `rules`.
  unfoldable pub handle_batch_apply_class_template : J.Value → M (Server D.Conn) (Unit {0})
  handle_batch_apply_class_template json = do
    unless (J.contains json "class_name" && has_string J json "class_name")
        (send_error (minus 412) "Missing or invalid class_name parameter")
    class_name ← or_throw (string_field J json "class_name")
    need_connection D "Database handle invalid"
    execute D "START TRANSACTION;"
    fine ← run_query D (class_template_sql class_name)
    unless fine
        (execute D "ROLLBACK;" >> fail_with D (minus 501) "Failed to fetch class templates: ")
    template_res ← store_result D
    template_rows ←
        from template_res
          (execute D "ROLLBACK;" >> send_error (minus 502) "Store template result failed")
          (λ rs. or_throw (some rs))
    masks ← weekly_masks template_rows (map (λ w. 0) (weeks D))
    escaped_class_name ← escape_string D class_name
    found ← run_query D (class_users_sql escaped_class_name)
    unless found (execute D "ROLLBACK;" >> fail_with D (minus 501) "Failed to query class users: ")
    users_res ← store_result D
    user_ids ← or_throw (each (int_column 0) (rows_of users_res))
    apply_rules [] user_ids
    execute D "COMMIT;"
    send_response (
        ("status", phrase "ok")
        ∷ ("code", number (pos 0))
        ∷ ("action", phrase "BATCH_APPLY_CLASS_TEMPLATE")
        ∷ ("data", record_of (("affected_rows", figure (pos (length user_ids))) ∷ []))
        ∷ [])
