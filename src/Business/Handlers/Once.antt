-- ===== src/Business/Handlers/Once.antt =====
-- Each handler of server/business/BusinessServer.cpp answers once, or an exception leaves it.
pub mod Parts
use Prim.Native.String.{String}
use qinyunserver.Base.{ℕ, Bool, Option, none, some, List, [], ◌∷◌}
use qinyunserver.Base.Int.{ℤ}
use qinyunserver.Business.Interface.{JsonLib, Mysql, Calendar, Row}
use qinyunserver.Business.Owed.{Owing, Answering, Silent}
use qinyunserver.Business.Answers.{Owing->>=, Owing-or_throw, answers, silence}
use qinyunserver.Business.Handlers.Activity.{
  settle_member, close_activity, settle_results, handle_settle_activity, handle_apply_activity,
  handle_approve_application, handle_delete_activity, handle_leave_activity,
}
use qinyunserver.Business.Handlers.Assign.{
  assign_member, assign_members, handle_batch_assign_members, assign_rows, handle_confirm_assign,
}
use qinyunserver.Business.Handlers.Member.{
  login_as, handle_login, delete_user, handle_delete_member, join_ids, handle_batch_delete_members,
  handle_unknown_action,
}
use qinyunserver.Business.Handlers.Query.{
  handle_get_registered_classes, handle_get_departments, handle_get_activities,
  handle_get_management_activities, handle_get_members, handle_get_assigned_members,
}
use qinyunserver.Business.Handlers.Slots.{handle_get_time_slot_analytics, handle_filter_members}
use qinyunserver.Business.Handlers.Term.{handle_set_term_start, handle_get_term_start}
use qinyunserver.Business.Handlers.Edit.{
  Draft, user_row, user_rows, handle_bulk_register, handle_update_activity, add_instance,
  add_instances, handle_add_activity,
}
use qinyunserver.Business.Handlers.Spread.{
  ClassRule, apply_week, apply_rules, weekly_masks, handle_batch_apply_class_template,
}
use qinyunserver.Business.Handlers.Template.{
  handle_get_class_template, insert_course, replace_courses, handle_upload_schedule,
}
use qinyunserver.Business.Schedule.Silent.{rebuild_user_schedules-Silent}
use qinyunserver.Business.Handlers.Once.Parts.{
  settle_member-Owing, close_activity-Owing, settle_results-Owing, assign_member-Owing,
  assign_members-Owing, assign_rows-Owing, delete_user-Owing, join_ids-Owing, user_row-Owing,
  user_rows-Owing, add_instance-Owing, add_instances-Owing, insert_course-Owing,
  replace_courses-Answering, apply_week-Owing, apply_rules-Owing, weekly_masks-Owing,
  login_as-Answering,
}

module _ (J : JsonLib) (D : Mysql) where
  pub handle_settle_activity-Answering :
      (json : J.Value) → Answering (handle_settle_activity J D json)
  unfolding handle_settle_activity
  handle_settle_activity-Answering json = search (answers, settle_results-Owing) depth 40

  pub handle_apply_activity-Answering :
      (json : J.Value) → Answering (handle_apply_activity J D json)
  unfolding handle_apply_activity
  handle_apply_activity-Answering json = search answers depth 40

  pub handle_approve_application-Answering :
      (json : J.Value) → Answering (handle_approve_application J D json)
  unfolding handle_approve_application
  handle_approve_application-Answering json = search answers depth 40

  pub handle_delete_activity-Answering :
      (json : J.Value) → Answering (handle_delete_activity J D json)
  unfolding handle_delete_activity
  handle_delete_activity-Answering json = search answers depth 40

  pub handle_leave_activity-Answering :
      (json : J.Value) → Answering (handle_leave_activity J D json)
  unfolding handle_leave_activity
  handle_leave_activity-Answering json = search answers depth 40

  pub handle_batch_assign_members-Answering :
      (json : J.Value) → Answering (handle_batch_assign_members J D json)
  unfolding handle_batch_assign_members
  handle_batch_assign_members-Answering json = search (answers, assign_members-Owing) depth 40

  pub handle_confirm_assign-Answering :
      (json : J.Value) → Answering (handle_confirm_assign J D json)
  unfolding handle_confirm_assign
  handle_confirm_assign-Answering json = search (answers, assign_rows-Owing) depth 40

  pub handle_login-Answering : (json : J.Value) → Answering (handle_login J D json)
  unfolding handle_login
  handle_login-Answering json = search (answers, login_as-Answering) depth 40

  pub handle_delete_member-Answering : (json : J.Value) → Answering (handle_delete_member J D json)
  unfolding handle_delete_member
  handle_delete_member-Answering json = search (answers, delete_user-Owing) depth 40

  pub handle_batch_delete_members-Answering :
      (json : J.Value) → Answering (handle_batch_delete_members J D json)
  unfolding handle_batch_delete_members
  handle_batch_delete_members-Answering json = search (answers, join_ids-Owing) depth 40

  pub handle_unknown_action-Answering :
      (json : J.Value) → Answering (handle_unknown_action J D json)
  unfolding handle_unknown_action
  handle_unknown_action-Answering json = search answers depth 40

  pub handle_get_registered_classes-Answering :
      (json : J.Value) → Answering (handle_get_registered_classes J D json)
  unfolding handle_get_registered_classes
  handle_get_registered_classes-Answering json = search answers depth 40

  pub handle_get_departments-Answering :
      (json : J.Value) → Answering (handle_get_departments J D json)
  unfolding handle_get_departments
  handle_get_departments-Answering json = search answers depth 40

  pub handle_get_activities-Answering :
      (json : J.Value) → Answering (handle_get_activities J D json)
  unfolding handle_get_activities
  handle_get_activities-Answering json = search answers depth 40

  pub handle_get_management_activities-Answering :
      (json : J.Value) → Answering (handle_get_management_activities J D json)
  unfolding handle_get_management_activities
  handle_get_management_activities-Answering json = search answers depth 40

  pub handle_get_members-Answering : (json : J.Value) → Answering (handle_get_members J D json)
  unfolding handle_get_members
  handle_get_members-Answering json = search answers depth 40

  pub handle_get_assigned_members-Answering :
      (json : J.Value) → Answering (handle_get_assigned_members J D json)
  unfolding handle_get_assigned_members
  handle_get_assigned_members-Answering json = search answers depth 40

  pub handle_get_time_slot_analytics-Answering :
      (json : J.Value) → Answering (handle_get_time_slot_analytics J D json)
  unfolding handle_get_time_slot_analytics
  handle_get_time_slot_analytics-Answering json = search answers depth 40

  pub handle_filter_members-Answering :
      (json : J.Value) → Answering (handle_filter_members J D json)
  unfolding handle_filter_members
  handle_filter_members-Answering json = search answers depth 40

  pub handle_bulk_register-Answering : (json : J.Value) → Answering (handle_bulk_register J D json)
  unfolding handle_bulk_register
  handle_bulk_register-Answering json = search (answers, user_rows-Owing) depth 40

  pub handle_update_activity-Answering :
      (json : J.Value) → Answering (handle_update_activity J D json)
  unfolding handle_update_activity
  handle_update_activity-Answering json = search answers depth 40

  pub handle_add_activity-Answering :
      (T : Calendar) (json : J.Value) → Answering (handle_add_activity J D T json)
  unfolding handle_add_activity
  handle_add_activity-Answering T json = search (answers, add_instances-Owing) depth 40

  pub handle_get_class_template-Answering :
      (json : J.Value) → Answering (handle_get_class_template J D json)
  unfolding handle_get_class_template
  handle_get_class_template-Answering json = search answers depth 40

  pub handle_upload_schedule-Answering :
      (json : J.Value) → Answering (handle_upload_schedule J D json)
  unfolding handle_upload_schedule
  handle_upload_schedule-Answering json = search (answers, replace_courses-Answering) depth 40

  pub handle_batch_apply_class_template-Answering :
      (json : J.Value) → Answering (handle_batch_apply_class_template J D json)
  unfolding handle_batch_apply_class_template
  handle_batch_apply_class_template-Answering json =
      search (answers, apply_rules-Owing, weekly_masks-Owing) depth 40

  pub handle_set_term_start-Answering :
      (T : Calendar) (json : J.Value) → Answering (handle_set_term_start D T J json)
  unfolding handle_set_term_start
  handle_set_term_start-Answering T json = search answers depth 40

  pub handle_get_term_start-Answering :
      (T : Calendar) (json : J.Value) → Answering (handle_get_term_start D T J json)
  unfolding handle_get_term_start
  handle_get_term_start-Answering T json = search answers depth 40
