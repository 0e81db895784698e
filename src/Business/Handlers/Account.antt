-- ===== src/Business/Handlers/Account.antt =====
-- Who may log in, and the transaction that deletes a member, in server/business/BusinessServer.cpp.
use Prim.Native.String.{String, ◌++◌}
use text.Mathlib.Text.{◌==◌ as str_eq}
use qinyunserver.Base.{
  ◌≡◌, refl, sym, not, ◌&&◌, Bool, true, false, List, [], ◌∷◌, Bool-cases, inl, inr, some,
  if◌then◌else◌,
}
use qinyunserver.Base.Int.{ℤ, pos, eq_ℤ}
use qinyunserver.Business.Monad.{◌>>=◌, ◌>>◌, or_throw, unless, when}
use qinyunserver.Business.Text.{int_to_string}
use qinyunserver.Business.Interface.{JsonLib, Mysql, Row}
use qinyunserver.Business.Server.{
  Server, int_field, string_field, has_string, escape_string, need_connection,
}
use qinyunserver.Business.Transaction.{
  attempt-Piece, Transaction, Transactional, unless-Transactional, or_throw-Transactional,
  need_connection-Transactional, transact-Transactional,
}
use qinyunserver.Business.Handlers.Activity.{column, int_column}
use qinyunserver.Business.Handlers.Apply.{AnswersOk, AnswersError}
use qinyunserver.Business.Handlers.Member.{
  text_or_empty, int_or_zero, login_sql, login_as, handle_login, delete_user, handle_delete_member,
}

-- An account may be used while its status is not 0, and with the password that is stored.
abbrev pub may_log_in : ℤ → String → String → Bool
may_log_in status password stored = not (eq_ℤ status (pos 0)) && str_eq password stored

false≢true : false ≡ true → ⊥
false≢true h = cc

module _ (J : JsonLib) (D : Mysql) (json : J.Value) (s : Server D.Conn) where
  -- For a request with a student's number and a password, where the database is connected and gives a row
  -- for the number as it is escaped, with numbers in the columns that are read as such, a login is answered
  -- ok if the account's status is not 0 and the password is the stored one, and an error otherwise.
  pub handle_login_lem :
      (student_id password : String) (conn : D.Conn) (row : Row) (rows : List Row)
      (user_id role_id dept_id status : ℤ)
      → (has_string J json "student_id" && has_string J json "password") ≡ true
      → string_field J json "student_id" ≡ some student_id
      → string_field J json "password" ≡ some password
      → s.connected ≡ true
      → D.query
          (login_sql J D (if str_eq student_id "" then student_id else D.escape s.conn student_id))
          s.conn
        ≡ (true, conn)
      → D.store_result conn ≡ some (row ∷ rows)
      → int_column 0 row ≡ some user_id
      → int_column 3 row ≡ some role_id
      → int_or_zero (column 4 row) ≡ some dept_id
      → int_column 6 row ≡ some status
      → (may_log_in status password (text_or_empty (column 2 row)) ≡ true
          → AnswersOk s (handle_login J D json s))
        × (may_log_in status password (text_or_empty (column 2 row)) ≡ false
            → AnswersError s (handle_login J D json s))
  unfolding handle_login login_as escape_string need_connection ◌>>=◌ ◌>>◌ or_throw unless when
  handle_login_lem student_id password conn row rows user_id role_id dept_id status h n p on q r e₀
        e₃ e₄ e₆ =
      elim (Bool-cases (eq_ℤ status (pos 0))) [
        | inl banned ↦
            rw (h, n, p, on, q, r, e₀, e₃, e₄, e₆, banned)
              ((λ k. absurd (false≢true k)), λ _. (refl, _, _, refl))
        | inr fine ↦ elim (Bool-cases (str_eq password (text_or_empty (column 2 row)))) [
          | inl right ↦
              rw (h, n, p, on, q, r, e₀, e₃, e₄, e₆, fine, right)
                ((λ _. (refl, _, refl)), λ k. absurd (false≢true (sym k)))
          | inr wrong ↦
              rw (h, n, p, on, q, r, e₀, e₃, e₄, e₆, fine, wrong)
                ((λ k. absurd (false≢true k)), λ _. (refl, _, _, refl))
        ]
      ]

  -- The statement that deletes the member of the request.
  pub data Deletes (sql : String) : Type 0 where
    deletes :
        (target_id : ℤ)
        → int_field J json "target_user_id" ≡ some target_id
        → sql ≡ "DELETE FROM users WHERE id = " ++ int_to_string target_id ++ ";"
        → Deletes sql

  -- Deleting a member gives one statement, which deletes the member that the request names and succeeds,
  -- and commits; or rolls it back where it
  -- fails; or refuses the request before any statement; or an exception leaves it unanswered. The
  -- answer is ok in the first case alone.
  pub handle_delete_member-Transaction :
      Transaction (Deletes ∷ []) s (handle_delete_member J D json s)
  unfolding handle_delete_member delete_user ◌>>◌ ◌>>=◌
  handle_delete_member-Transaction =
      let whole : Transactional (Deletes ∷ []) (handle_delete_member J D json) =
        unless-Transactional _ _ _ (
          or_throw-Transactional _ (λ target_id e. need_connection-Transactional D _ (
            transact-Transactional D (delete_user J D target_id) _
              (λ s₁. (attempt-Piece D Deletes _ _ _ s₁ (deletes target_id e refl)).1)))) in
      whole.run s
