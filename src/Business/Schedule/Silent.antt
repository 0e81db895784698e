-- ===== src/Business/Schedule/Silent.antt =====
-- Rebuilding the bitmaps in server/business/BusinessServer.cpp sends no reply.
use qinyunserver.Base.{refl, List, [], ◌∷◌}
use qinyunserver.Base.Int.{ℤ}
use qinyunserver.Business.Interface.{Mysql, Row}
use qinyunserver.Business.Owed.{Silent, Silent->>=}
use qinyunserver.Business.Answers.{silence}
use qinyunserver.Business.Schedule.{
  CourseRule, read_rule, read_rules, write_schedules, rebuild_user_schedules, connected_now,
}

module _ (D : Mysql) where
  read_rule-Silent : (row : Row) → Silent (read_rule D row)
  unfolding read_rule
  read_rule-Silent row = search silence depth 40

  read_rules-Silent : (rs : List Row) → Silent (read_rules D rs)
  unfolding read_rules
  read_rules-Silent [] = search silence
  read_rules-Silent (row ∷ rs) =
      Silent->>= _ _ (read_rule-Silent row) (λ x. search (silence, read_rules-Silent rs) depth 40)

  write_schedules-Silent :
      (user_id : ℤ) (rules : List CourseRule) → Silent (write_schedules D user_id rules)
  unfolding write_schedules
  write_schedules-Silent user_id rules = search silence depth 40

  connected_now-Silent : Silent (connected_now D)
  connected_now-Silent = record { at = λ s. refl }

  pub rebuild_user_schedules-Silent : (user_id : ℤ) → Silent (rebuild_user_schedules D user_id)
  unfolding rebuild_user_schedules
  rebuild_user_schedules-Silent user_id =
      search (silence, read_rules-Silent, write_schedules-Silent, connected_now-Silent) depth 40
