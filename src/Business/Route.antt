-- ===== src/Business/Route.antt =====
-- The table of handlers of server/business/BusinessServer.cpp, and what `onMessage` does with one packet.
pub mod Replies
use Prim.Native.String.{String}
use text.Mathlib.Text.{◌==◌ as str_eq}
use qinyunserver.Base.{ℕ, ◌&&◌, Option, none, some, List, [], ◌∷◌, if◌then◌else◌}
use qinyunserver.Base.Int.{minus}
use qinyunserver.Business.Monad.{
  M, Step, done, returned, thrown, aborted, ◌>>=◌, or_throw, pure, call,
}
use qinyunserver.Business.Interface.{JsonLib, Mysql, Calendar}
use qinyunserver.Business.Server.{Server, send_error, string_field, has_string}
use qinyunserver.Business.Handlers.Activity.{
  handle_settle_activity, handle_apply_activity, handle_approve_application, handle_delete_activity,
  handle_leave_activity,
}
use qinyunserver.Business.Handlers.Assign.{handle_batch_assign_members, handle_confirm_assign}
use qinyunserver.Business.Handlers.Member.{
  handle_login, handle_delete_member, handle_batch_delete_members, handle_unknown_action,
}
use qinyunserver.Business.Handlers.Query.{
  handle_get_registered_classes, handle_get_departments, handle_get_activities,
  handle_get_management_activities, handle_get_members, handle_get_assigned_members,
}
use qinyunserver.Business.Handlers.Slots.{handle_get_time_slot_analytics, handle_filter_members}
use qinyunserver.Business.Handlers.Term.{handle_set_term_start, handle_get_term_start}
use qinyunserver.Business.Handlers.Edit.{
  handle_bulk_register, handle_update_activity, handle_add_activity,
}
use qinyunserver.Business.Handlers.Spread.{handle_batch_apply_class_template}
use qinyunserver.Business.Handlers.Template.{handle_get_class_template, handle_upload_schedule}

-- `router_.find(action)`
abbrev pub find_route : {A : Type 0} → String → List (String × A) → Option A
find_route action [] = none
find_route action ((name, handler) ∷ routes) =
    let other = find_route action routes in if str_eq name action then some handler else other

module _ (J : JsonLib) (D : Mysql) (T : Calendar) where
  abbrev pub Handler : Type 0
  Handler = J.Value → M (Server D.Conn) (Unit {0})

  -- `router_`
  abbrev pub router : List (String × Handler)
  router =
      ("LOGIN", handle_login J D)
      ∷ ("UPLOAD_SCHEDULE", handle_upload_schedule J D)
      ∷ ("FILTER_AVAILABLE_MEMBERS", handle_filter_members J D)
      ∷ ("CONFIRM_ASSIGN", handle_confirm_assign J D)
      ∷ ("GET_MEMBERS", handle_get_members J D)
      ∷ ("GET_ACTIVITIES", handle_get_activities J D)
      ∷ ("ADD_ACTIVITY", handle_add_activity J D T)
      ∷ ("GET_DEPARTMENTS", handle_get_departments J D)
      ∷ ("BULK_REGISTER_USERS", handle_bulk_register J D)
      ∷ ("GET_MANAGEMENT_ACTIVITIES", handle_get_management_activities J D)
      ∷ ("DELETE_ACTIVITY", handle_delete_activity J D)
      ∷ ("UPDATE_ACTIVITY", handle_update_activity J D)
      ∷ ("GET_ASSIGNED_MEMBERS", handle_get_assigned_members J D)
      ∷ ("BATCH_APPLY_CLASS_TEMPLATE", handle_batch_apply_class_template J D)
      ∷ ("GET_TIME_ANALYTICS", handle_get_time_slot_analytics J D)
      ∷ ("GET_CLASS_TEMPLATE", handle_get_class_template J D)
      ∷ ("DELETE_MEMBER", handle_delete_member J D)
      ∷ ("APPLY_ACTIVITY", handle_apply_activity J D)
      ∷ ("LEAVE_ACTIVITY", handle_leave_activity J D)
      ∷ ("BATCH_DELETE_MEMBERS", handle_batch_delete_members J D)
      ∷ ("BATCH_ASSIGN_MEMBERS", handle_batch_assign_members J D)
      ∷ ("SET_TERM_START", handle_set_term_start D T J)
      ∷ ("GET_TERM_START", handle_get_term_start D T J)
      ∷ ("GET_REGISTERED_CLASSES", handle_get_registered_classes J D)
      ∷ ("APPROVE_APPLICATION", handle_approve_application J D)
      ∷ ("SETTLE_ACTIVITY", handle_settle_activity J D)
      ∷ []

  -- `it->second`, or `handleUnknownAction`
  unfoldable pub handler_of : String → Handler
  handler_of action = elim (find_route action router) [
    | none ↦ handle_unknown_action J D
    | some handler ↦ handler
  ]

  -- `dispatchAction`
  unfoldable pub dispatch_action : Handler
  dispatch_action json =
      or_throw (string_field J json "action") >>= λ action. handler_of action json

  -- The body of the loop of `onMessage` on one packet; an early return there is the handler's own.
  unfoldable pub handle_packet : List ℕ → M (Server D.Conn) (Unit {0})
  handle_packet json_body = elim (J.parse json_body) [
    | none ↦ call (send_error (minus 1) "Invalid JSON data wire structure")
    | some json ↦
        if J.contains json "action" && has_string J json "action"
        then call (dispatch_action json)
        else pure tt
  ]

  abbrev left : {S : Type 0} → Step (Unit {0}) × S → Option S
  left (done a, s) = some s
  left (returned, s) = some s
  left (thrown, s) = none
  left (aborted, s) = none

  -- No one catches an exception: it ends the process, as a failed assertion does.
  unfoldable pub serve : List ℕ → Server D.Conn → Option (Server D.Conn)
  serve json_body s = left (handle_packet json_body s)
