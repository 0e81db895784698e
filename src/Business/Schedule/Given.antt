-- ===== src/Business/Schedule/Given.antt =====
-- Which statements `rebuildUserSchedules` in server/business/BusinessServer.cpp may give to the database.
use Prim.Native.String.{String}
use qinyunserver.Base.{ℕ, refl, List, [], ◌∷◌}
use qinyunserver.Base.Int.{ℤ}
use qinyunserver.Business.Interface.{Mysql, Row}
use qinyunserver.Business.Statements.{Giving, Giving->>=, statements}
use qinyunserver.Business.Schedule.{
  CourseRule, read_rule, read_rules, write_schedules, rebuild_user_schedules, connected_now,
  rules_sql, schedule_sql,
}

module _ (D : Mysql) (user_id : ℤ) where
  -- The user's courses are read and the masks of days of weeks are written.
  pub data Rebuilds : String → Type 0 where
    reads_rules : Rebuilds (rules_sql D user_id)
    writes_mask : (week day mask : ℕ) → Rebuilds (schedule_sql D user_id week day mask)

  read_rule-Giving : (row : Row) → Giving Rebuilds (read_rule D row)
  unfolding read_rule
  read_rule-Giving row = search statements depth 40

  read_rules-Giving : (rs : List Row) → Giving Rebuilds (read_rules D rs)
  unfolding read_rules
  read_rules-Giving [] = search statements
  read_rules-Giving (row ∷ rs) =
      Giving->>= _ _ (read_rule-Giving row)
        (λ x. search (statements, read_rules-Giving rs) depth 40)

  write_schedules-Giving :
      (rules : List CourseRule) → Giving Rebuilds (write_schedules D user_id rules)
  unfolding write_schedules
  write_schedules-Giving rules = search (statements, writes_mask) depth 40

  connected_now-Giving : Giving Rebuilds (connected_now D)
  connected_now-Giving = record { at = λ s. ([], refl, tt) }

  pub rebuild_user_schedules-Giving : Giving Rebuilds (rebuild_user_schedules D user_id)
  unfolding rebuild_user_schedules
  rebuild_user_schedules-Giving =
      search
        (statements, reads_rules, read_rules-Giving, write_schedules-Giving, connected_now-Giving)
        depth 40
