-- ===== src/Tests/Requests.antt =====
-- A small JSON library and a small database, and the theorems on the handlers with them.
use Prim.Native.String.{String}
use text.Mathlib.Text.{◌==◌ as str_eq}
use qinyunserver.Base.{
  ℕ, ◌+◌, ◌==◌, not, ◌≡◌, ◌≢◌, refl, Bool, true, false, Option, none, some, List, [], ◌∷◌,
  if◌then◌else◌,
}
use qinyunserver.Base.Int.{ℤ, pos}
use qinyunserver.Business.Text.{stoi}
use qinyunserver.Business.Interface.{JsonLib, Mysql, Row}
use qinyunserver.Business.Server.{Server, role_captain, role_minister}
use qinyunserver.Business.Transaction.{Transaction}
use qinyunserver.Business.Handlers.Activity.{
  handle_settle_activity, handle_approve_application, handle_apply_activity, handle_leave_activity,
  apply_check, apply_insert, leave_check, leave_delete,
}
use qinyunserver.Business.Handlers.Approve.{HasRole, handle_settle_activity-HasRole}
use qinyunserver.Business.Handlers.Apply.{
  AnswersOk, AnswersError, handle_apply_activity_lem, handle_leave_activity_lem,
}
use qinyunserver.Business.Handlers.Assign.{handle_batch_assign_members}
use qinyunserver.Business.Handlers.Batch.{Assignments, handle_batch_assign_members-Transaction}
use qinyunserver.Business.Handlers.Settle.{Settlement, handle_settle_activity-Transaction}

-- An array and an object are chains of their parts.
pub data Value : Type 0 where
  number : ℤ → Value
  word : String → Value
  no_items no_fields : Value
  item : Value → Value → Value
  field : String → Value → Value → Value

abbrev find : Value → String → Option Value
find (field key v rest) name =
    let other = find rest name in if str_eq key name then some v else other
find _ name = none

abbrev found : Option Value → Bool
found none = false
found (some v) = true

abbrev elements_of : Value → List Value
elements_of (item v rest) = v ∷ elements_of rest
elements_of _ = []

abbrev as_int : Value → Option ℤ
as_int (number z) = some z
as_int _ = none

abbrev as_u32 : Value → Option ℕ
as_u32 (number (pos n)) = some n
as_u32 _ = none

abbrev as_word : Value → Option String
as_word (word w) = some w
as_word _ = none

abbrev is_items : Value → Bool
is_items no_items = true
is_items (item v rest) = true
is_items _ = false

abbrev or_else : {A : Type 0} → Option Value → (Value → Option A) → A → Option A
or_else none get a = some a
or_else (some v) get a = get v

abbrev pub small_json : JsonLib
small_json = record {
  Value = Value;
  Double = ℤ;
  parse = λ text. none;
  contains = λ v name. found (find v name);
  field = find;
  is_array = is_items;
  is_string = λ v. elim (as_word v) [ none ↦ false | some w ↦ true ];
  is_null = λ v. false;
  elements = elements_of;
  get_int = as_int;
  get_u32 = as_u32;
  get_double = as_int;
  get_string = as_word;
  value_int = λ v name. or_else (find v name) as_int;
  value_u32 = λ v name. or_else (find v name) as_u32;
  value_bool = λ v name b. some b;
  value_string = λ v name. or_else (find v name) as_word;
  show_double = λ d. "1.0";
  one = pos 1;
  value_double = λ v name. or_else (find v name) as_int;
  show_tenths = λ d. "1.0";
  reads_double = λ t. true;
  reads_float = λ t. true;
  what = λ v. "bad";
}

-- A database that refuses the statement numbered 2, and answers one row.
abbrev pub small_db : Mysql
small_db = record {
  Conn = ℕ;
  query = λ sql n. (not (n == 2), n + 1);
  store_result = λ n. some ((some "1" ∷ some "5" ∷ some "2" ∷ []) ∷ []);
  error = λ n. "refused";
  affected_rows = λ n. pos 1;
  escape = λ n text. text;
}

abbrev pub start : Server ℕ
start = record { conn = 0; connected = true; cached_term_start = ""; log = []; sent = [] }

-- Two users for the activity 7; the second insert is refused.
abbrev assign_two : Value
assign_two =
    field "activity_id" (number (pos 7))
      (field "user_ids" (item (number (pos 1)) (item (number (pos 2)) no_items)) no_fields)

handle_batch_assign_members-Transaction_example :
    Transaction
      (Assignments small_json small_db assign_two)
      start
      (handle_batch_assign_members small_json small_db assign_two start)
handle_batch_assign_members-Transaction_example =
    handle_batch_assign_members-Transaction small_json small_db assign_two start

-- A captain settles one member.
abbrev settle_one : Value
settle_one = field "request_user_role" (number (pos 20)) (
    field "activity_id" (number (pos 7)) (
      field "results"
        (item
          (field "duration" (number (pos 1))
            (field "status" (number (pos 1)) (field "user_id" (number (pos 3)) no_fields)))
          no_items)
        no_fields))

handle_settle_activity-Transaction_example :
    Transaction
      (Settlement small_json small_db settle_one)
      start
      (handle_settle_activity small_json small_db settle_one start)
handle_settle_activity-Transaction_example =
    handle_settle_activity-Transaction small_json small_db settle_one start

handle_settle_activity-HasRole_example :
    ((handle_settle_activity small_json small_db settle_one start).1.log ≢ []
      → HasRole small_json small_db settle_one role_captain)
    × ((handle_approve_application small_json small_db settle_one start).1.log ≢ []
        → HasRole small_json small_db settle_one role_minister)
handle_settle_activity-HasRole_example =
    handle_settle_activity-HasRole small_json small_db settle_one start

-- The user 3 and the activity 7, with a reason.
abbrev apply_one : Value
apply_one =
    field "activity_id" (number (pos 7))
      (field "user_id" (number (pos 3)) (field "reason" (word "please") no_fields))

abbrev one_row : Row
one_row = some "1" ∷ some "5" ∷ some "2" ∷ []

handle_apply_activity_example :
    (true ≡ false
      → ((handle_apply_activity small_json small_db apply_one start).1.log
          ≡ (apply_check small_json small_db (pos 7), true) ∷ [])
        × AnswersError start (handle_apply_activity small_json small_db apply_one start))
    × (true ≡ true
        → (reason : String) × (saved : Bool) × ((handle_apply_activity small_json small_db apply_one
              start).1.log
            ≡ (apply_insert small_json small_db (pos 7) (pos 3) reason, saved)
              ∷ (apply_check small_json small_db (pos 7), true)
              ∷ [])
          × (saved ≡ true
              → AnswersOk start (handle_apply_activity small_json small_db apply_one start))
          × (saved ≡ false
              → AnswersError start (handle_apply_activity small_json small_db apply_one start)))
unfolding stoi
handle_apply_activity_example =
    handle_apply_activity_lem small_json small_db apply_one start (pos 7) (pos 3) refl refl refl
      "please" 1 one_row [] (pos 1) (pos 5) (pos 2) refl refl refl refl refl refl

handle_leave_activity_example :
    (true ≡ false
      → ((handle_leave_activity small_json small_db apply_one start).1.log
          ≡ (leave_check small_json small_db (pos 7), true) ∷ [])
        × AnswersError start (handle_leave_activity small_json small_db apply_one start))
    × (true ≡ true
        → (deleted : Bool) × ((handle_leave_activity small_json small_db apply_one start).1.log
            ≡ (leave_delete small_json small_db (pos 7) (pos 3), deleted)
              ∷ (leave_check small_json small_db (pos 7), true)
              ∷ [])
          × (deleted ≡ true
              → AnswersOk start (handle_leave_activity small_json small_db apply_one start))
          × (deleted ≡ false
              → AnswersError start (handle_leave_activity small_json small_db apply_one start)))
unfolding stoi
handle_leave_activity_example =
    handle_leave_activity_lem small_json small_db apply_one start (pos 7) (pos 3) refl refl refl 1
      (one_row ∷ []) (pos 1) refl refl refl
