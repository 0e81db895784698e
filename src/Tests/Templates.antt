-- ===== src/Tests/Templates.antt =====
-- The theorems on the courses of a class: two courses of one slot, and a class whose template is applied.
use Prim.Native.String.{String}
use qinyunserver.Base.{Bool, All, List, ◌++◌, ◌≡◌, refl, some, none, [], ◌∷◌}
use qinyunserver.Business.Interface.{Row}
use qinyunserver.Business.Handlers.Rows.{each, read_object}
use qinyunserver.Business.Handlers.Spread.{handle_batch_apply_class_template}
use qinyunserver.Business.Handlers.Template.{
  course_columns, courses_of, handle_upload_schedule, replace_courses, insert_course,
}
use qinyunserver.Business.Handlers.Template.Upload.{Upload, handle_upload_schedule-Upload}
use qinyunserver.Business.Monad.{
  guarded, call, for_each, unless, from, or_throw, or_abort, ◌>>=◌, ◌>>◌,
}
use qinyunserver.Business.Schedule.{rebuild_user_schedules}
use qinyunserver.Base.Int.{pos, minus}
use qinyunserver.Business.Server.{error_reply}
use qinyunserver.Business.Text.{stoi, stoul}
use qinyunserver.Business.Handlers.Template.Dedup.{courses_of-first_rows}
use qinyunserver.Business.Handlers.Template.Unapplied.{
  Reads, handle_batch_apply_class_template-Reads,
}
use qinyunserver.Tests.Requests.{
  Value, field, word, number, item, no_items, no_fields, small_json, small_db, start,
}

-- The user's own course and the class's on Monday, and the class's on Tuesday.
abbrev own : Row
own = some "Chess" ∷ some "1" ∷ some "2" ∷ some "1" ∷ some "16" ∷ some "0" ∷ []

abbrev shared : Row
shared = none ∷ some "1" ∷ some "2" ∷ some "1" ∷ some "16" ∷ some "0" ∷ []

abbrev tuesday : Row
tuesday = none ∷ some "2" ∷ some "2" ∷ some "1" ∷ some "16" ∷ some "1" ∷ []

courses_of-first_rows_example :
    courses_of (own ∷ shared ∷ tuesday ∷ []) []
    ≡ each (read_object course_columns) (own ∷ tuesday ∷ [])
courses_of-first_rows_example =
    courses_of-first_rows (own ∷ shared ∷ tuesday ∷ [])
      (("1-2", refl), (("1-2", refl), (("2-2", refl), tt)))

abbrev apply_class : Value
apply_class = field "class_name" (word "A") no_fields

handle_batch_apply_class_template-Reads_example :
    (batch : List (String × Bool)) × ((handle_batch_apply_class_template small_json small_db
        apply_class start).1.log
      ≡ batch ++ [])
    × All (λ e. Reads e.0) batch
handle_batch_apply_class_template-Reads_example =
    handle_batch_apply_class_template-Reads small_json small_db apply_class start

-- One course of the user 3. The insert is refused, and the row of the result has too few columns for the
-- masks: the answer is an error, behind COMMIT.
abbrev upload_one : Value
upload_one = field "user_id" (number (pos 3)) (
    field "courses"
      (item (field "day_of_week" (number (pos 1)) (field "period" (number (pos 2)) no_fields))
        no_items)
      no_fields)

upload_one_answers :
    (handle_upload_schedule small_json small_db upload_one start).1.sent
    ≡ error_reply (minus 502) "Transaction failed: bad" ∷ []
unfolding handle_upload_schedule replace_courses insert_course rebuild_user_schedules guarded call
    for_each unless from or_throw ◌>>=◌ ◌>>◌ stoi stoul or_abort
upload_one_answers = refl

handle_upload_schedule-Upload_example :
    Upload small_json small_db upload_one start
      (handle_upload_schedule small_json small_db upload_one start)
handle_upload_schedule-Upload_example =
    handle_upload_schedule-Upload small_json small_db upload_one start
