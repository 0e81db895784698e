-- ===== src/Business/Schedule.antt =====
-- The weekly bitmaps of `rebuildUserSchedules` in server/business/BusinessServer.cpp.
pub mod Bits
pub mod Covers
pub mod Silent
pub mod Given
use Prim.Native.String.{String, ◌++◌}
use qinyunserver.Base.{
  ℕ, zero, suc, ◌+◌, ◌*◌, ◌/◌, ◌%◌, ◌^◌, Bool, true, false, not, ◌&&◌, ◌||◌, Option, none, some,
  List, [], ◌∷◌, ltb, ◌==◌, if◌then◌else◌,
}
use qinyunserver.Business.Bits.{or_bits}
use qinyunserver.Base.Int.{ℤ, pos, ltb_ℤ, eq_ℤ}
use qinyunserver.Business.Monad.{M, ◌>>=◌, ◌>>◌, done, pure, exit, or_throw, unless, for_each, from}
use qinyunserver.Business.Text.{int_to_string, to_string, stoul}
use qinyunserver.Business.Interface.{Mysql, Row}
use qinyunserver.Business.Server.{Server, run_query, execute, store_result}
use qinyunserver.Business.Handlers.Activity.{column, int_column}
use qinyunserver.Business.Handlers.Member.{int_or_zero}

pub record CourseRule : Type 0 where
  pub day_of_week : ℤ
  pub time_mask : ℕ
  pub start_week : ℤ
  pub end_week : ℤ
  pub week_type : ℤ

-- The tests that skip a rule for a day of a week.
abbrev pub skips : ℕ → ℕ → CourseRule → Bool
skips week day rule =
    not (eq_ℤ rule.day_of_week (pos day))
    || ((ltb_ℤ (pos week) rule.start_week || ltb_ℤ rule.end_week (pos week))
        || (eq_ℤ rule.week_type (pos 1) && week % 2 == 0
            || eq_ℤ rule.week_type (pos 2) && week % 2 == 1))

-- The loop over the rules, from the mask that is there; an uint32_t has 32 bits.
unfoldable pub day_mask : ℕ → ℕ → List CourseRule → ℕ → ℕ
day_mask week day [] mask = mask
day_mask week day (rule ∷ rules) mask =
    if skips week day rule
    then day_mask week day rules mask
    else day_mask week day rules (or_bits 32 mask rule.time_mask)

-- `row[1] ? std::stoul(row[1]) : 0`, put into an uint32_t.
abbrev pub u32_or_zero : Option String → Option ℕ
u32_or_zero none = some 0
u32_or_zero (some t) = elim (stoul t) [ none ↦ none | some n ↦ some (n % 2 ^ 32) ]

module _ (D : Mysql) where
  abbrev connected_now : M (Server D.Conn) Bool
  connected_now s = (done s.connected, s)

  read_rule : Row → M (Server D.Conn) CourseRule
  read_rule row = do
    day_of_week ← or_throw (int_column 0 row)
    time_mask ← or_throw (u32_or_zero (column 1 row))
    start_week ← or_throw (int_column 2 row)
    end_week ← or_throw (int_column 3 row)
    week_type ← or_throw (int_or_zero (column 4 row))
    pure (record {
      day_of_week = day_of_week;
      time_mask = time_mask;
      start_week = start_week;
      end_week = end_week;
      week_type = week_type;
    })

  read_rules : List Row → M (Server D.Conn) (List CourseRule)
  unfolding read_rule
  read_rules [] = pure []
  read_rules (row ∷ rows) = do rule ← read_rule row; rules ← read_rules rows; pure (rule ∷ rules)

  -- The text of the update of one day.
  abbrev pub schedule_sql : ℤ → ℕ → ℕ → ℕ → String
  schedule_sql user_id week day mask =
      "INSERT INTO schedules (user_id, week_number, day_of_week, day_bitmask) "
      ++ "VALUES ("
      ++ int_to_string user_id
      ++ ", "
      ++ to_string week
      ++ ", "
      ++ to_string day
      ++ ", "
      ++ to_string mask
      ++ ") "
      ++ "ON DUPLICATE KEY UPDATE day_bitmask = "
      ++ to_string mask
      ++ ";"

  abbrev pub rules_sql : ℤ → String
  rules_sql user_id =
      "SELECT day_of_week, time_mask, start_week, end_week, week_type FROM course_templates WHERE user_id = "
      ++ int_to_string user_id
      ++ " AND class_identifier IS NULL;"

  abbrev pub days : List ℕ
  days = 1 ∷ 2 ∷ 3 ∷ 4 ∷ 5 ∷ 6 ∷ 7 ∷ []

  abbrev pub weeks : List ℕ
  weeks = 1 ∷ 2 ∷ 3 ∷ 4 ∷ 5 ∷ 6 ∷ 7 ∷ 8 ∷ 9 ∷ 10 ∷ 11 ∷ 12 ∷ 13 ∷ 14 ∷ 15 ∷ 16 ∷ []

  -- The loop over the weeks and the days; no result is looked at.
  unfoldable pub write_schedules : ℤ → List CourseRule → M (Server D.Conn) (Unit {0})
  write_schedules user_id rules = for_each weeks (λ week.
      for_each days (λ day. execute D (schedule_sql user_id week day (day_mask week day rules 0))))

  -- `rebuildUserSchedules`
  unfoldable pub rebuild_user_schedules : ℤ → M (Server D.Conn) (Unit {0})
  unfolding read_rules
  rebuild_user_schedules user_id = do
    connected ← connected_now
    unless connected exit
    fine ← run_query D (rules_sql user_id)
    unless fine exit
    result ← store_result D
    rows ← from result exit pure
    rules ← read_rules rows
    write_schedules user_id rules
