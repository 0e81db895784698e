-- ===== src/Business/Handlers/Once/Parts.antt =====
-- The parts of the handlers of server/business/BusinessServer.cpp send nothing while they go on.
use Prim.Native.String.{String}
use qinyunserver.Base.{ℕ, Bool, Option, none, some, List, [], ◌∷◌}
use qinyunserver.Base.Int.{ℤ}
use qinyunserver.Business.Interface.{JsonLib, Mysql, Calendar, Row}
use qinyunserver.Business.Owed.{Owing, Answering}
use qinyunserver.Business.Answers.{Owing->>=, Owing-or_throw, answers}
use qinyunserver.Business.Handlers.Activity.{settle_member, close_activity, settle_results}
use qinyunserver.Business.Handlers.Assign.{assign_member, assign_members, assign_rows}
use qinyunserver.Business.Handlers.Member.{login_as, delete_user, join_ids}
use qinyunserver.Business.Handlers.Edit.{Draft, user_row, user_rows, add_instance, add_instances}
use qinyunserver.Business.Handlers.Spread.{ClassRule, apply_week, apply_rules, weekly_masks}
use qinyunserver.Business.Handlers.Template.{insert_course, replace_courses}
use qinyunserver.Business.Schedule.Silent.{rebuild_user_schedules-Silent}

module _ (J : JsonLib) (D : Mysql) where
  pub settle_member-Owing : (act_id : ℤ) (r : J.Value) → Owing (settle_member J D act_id r)
  unfolding settle_member
  settle_member-Owing act_id r = search answers depth 40

  pub close_activity-Owing : (act_id : ℤ) → Owing (close_activity J D act_id)
  unfolding close_activity
  close_activity-Owing act_id = search answers depth 40

  pub settle_results-Owing : (act_id : ℤ) (rs : List J.Value) → Owing (settle_results J D act_id rs)
  unfolding settle_results
  settle_results-Owing act_id rs =
      search (answers, settle_member-Owing, close_activity-Owing) depth 40

  pub assign_member-Owing :
      (activity_id : ℤ) (v : J.Value) → Owing (assign_member J D activity_id v)
  unfolding assign_member
  assign_member-Owing activity_id v = search answers depth 40

  pub assign_members-Owing :
      (activity_id : ℤ) (ids : List J.Value) (k : ℕ) → Owing (assign_members J D activity_id ids k)
  unfolding assign_members
  assign_members-Owing activity_id [] k = search (answers, assign_member-Owing) depth 40
  assign_members-Owing activity_id (v ∷ ids) k =
      search (answers, assign_member-Owing, assign_members-Owing activity_id ids) depth 40

  pub assign_rows-Owing :
      (activity_id : ℤ) (ids : List J.Value) → Owing (assign_rows J D activity_id ids)
  unfolding assign_rows
  assign_rows-Owing activity_id [] = search answers
  assign_rows-Owing activity_id (v ∷ ids) =
      Owing->>= _ _ (Owing-or_throw _)
        (λ x. search (answers, assign_rows-Owing activity_id ids) depth 40)

  pub delete_user-Owing : (target_id : ℤ) → Owing (delete_user J D target_id)
  unfolding delete_user
  delete_user-Owing target_id = search answers depth 40

  pub join_ids-Owing : (ids : List J.Value) → Owing (join_ids J D ids)
  unfolding join_ids
  join_ids-Owing [] = search answers
  join_ids-Owing (v ∷ ids) =
      Owing->>= _ _ (Owing-or_throw _) (λ x. search (answers, join_ids-Owing ids) depth 40)

  pub user_row-Owing : (u : J.Value) → Owing (user_row J D u)
  unfolding user_row
  user_row-Owing u = search answers depth 40

  pub user_rows-Owing : (users : List J.Value) → Owing (user_rows J D users)
  unfolding user_rows
  user_rows-Owing [] = search answers
  user_rows-Owing (u ∷ users) =
      Owing->>= _ _ (user_row-Owing u) (λ x. search (answers, user_rows-Owing users) depth 40)

  pub add_instance-Owing :
      (T : Calendar) (a : Draft) (item : J.Value) → Owing (add_instance J D T a item)
  unfolding add_instance
  add_instance-Owing T a item = search answers depth 40

  pub add_instances-Owing :
      (T : Calendar) (a : Draft) (items : List J.Value) → Owing (add_instances J D T a items)
  unfolding add_instances
  add_instances-Owing T a items = search (answers, add_instance-Owing) depth 40

  pub insert_course-Owing : (owner : String) (c : J.Value) → Owing (insert_course J D owner c)
  unfolding insert_course
  insert_course-Owing owner c = search answers depth 40

  pub replace_courses-Answering :
      (is_public : Bool) (user_id : ℤ) (target_class : String) (courses : List J.Value)
      → Answering (replace_courses J D is_public user_id target_class courses)
  unfolding replace_courses
  replace_courses-Answering is_public user_id target_class courses =
      search (answers, insert_course-Owing, rebuild_user_schedules-Silent) depth 40

  pub apply_week-Owing : (uid : ℤ) (rule : ClassRule) (w : ℕ) → Owing (apply_week J D uid rule w)
  unfolding apply_week
  apply_week-Owing uid rule w = search answers depth 40

  pub apply_rules-Owing :
      (rules : List ClassRule) (user_ids : List ℤ) → Owing (apply_rules J D rules user_ids)
  unfolding apply_rules
  apply_rules-Owing rules user_ids = search (answers, apply_week-Owing) depth 40

  pub weekly_masks-Owing : (rs : List Row) (masks : List ℕ) → Owing (weekly_masks J D rs masks)
  unfolding weekly_masks
  weekly_masks-Owing [] masks = search answers
  weekly_masks-Owing (row ∷ rs) masks = search (answers, weekly_masks-Owing rs) depth 40

  pub login_as-Answering :
      (student_id password : String) (row : Option Row)
      → Answering (login_as J D student_id password row)
  unfolding login_as
  login_as-Answering student_id password none = search (answers) depth 40
  login_as-Answering student_id password (some row) = search (answers) depth 40
