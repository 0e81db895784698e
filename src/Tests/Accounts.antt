-- ===== src/Tests/Accounts.antt =====
-- The theorems on the login and on deleting a member at a small database.
use qinyunserver.Base.{◌≡◌, refl, true, false, some, [], ◌∷◌}
use qinyunserver.Base.Int.{pos}
use qinyunserver.Business.Text.{stoi}
use qinyunserver.Business.Interface.{Mysql, Row}
use qinyunserver.Business.Transaction.{Transaction}
use qinyunserver.Business.Handlers.Apply.{AnswersOk, AnswersError}
use qinyunserver.Business.Handlers.Member.{handle_login, handle_delete_member}
use qinyunserver.Business.Handlers.Account.{
  handle_login_lem, Deletes, handle_delete_member-Transaction,
}
use qinyunserver.Tests.Requests.{Value, field, word, number, no_fields, small_json, small_db, start}

-- The user 1 with the password "key".
abbrev account : Row
account = some "1" ∷ some "Li" ∷ some "key" ∷ some "40" ∷ some "2" ∷ some "A" ∷ some "1" ∷ []

abbrev account_db : Mysql
account_db = record small_db { store_result = λ n. some (account ∷ []) }

abbrev login : Value
login = field "student_id" (word "2026") (field "password" (word "key") no_fields)

handle_login_example :
    (true ≡ true → AnswersOk start (handle_login small_json account_db login start))
    × (true ≡ false → AnswersError start (handle_login small_json account_db login start))
unfolding stoi
handle_login_example =
    handle_login_lem small_json account_db login start "2026" "key" 1 account [] (pos 1) (pos 40)
      (pos 2) (pos 1) refl refl refl refl refl refl refl refl refl refl

handle_delete_member-Transaction_example :
    Transaction
      (Deletes small_json small_db (field "target_user_id" (number (pos 9)) no_fields) start ∷ [])
      start
      (handle_delete_member small_json small_db
        (field "target_user_id" (number (pos 9)) no_fields)
        start)
handle_delete_member-Transaction_example =
    handle_delete_member-Transaction small_json small_db
      (field "target_user_id" (number (pos 9)) no_fields) start
