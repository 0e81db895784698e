-- ===== src/Business/Handlers/Batch.antt =====
-- The transaction of `handleBatchAssignMembers` in server/business/BusinessServer.cpp.
use Prim.Native.String.{String, ◌++◌}
use qinyunserver.Base.{
  ◌≡◌, some, ℕ, suc, subst, ◌+◌, refl, ap, List, [], ◌∷◌, length, arith, inl, inr, Option-cases,
}
use qinyunserver.Base.Int.{ℤ}
use qinyunserver.Business.Monad.{◌>>=◌, ◌>>◌, or_throw, done}
use qinyunserver.Business.Text.{int_to_string}
use qinyunserver.Business.Interface.{JsonLib, Mysql}
use qinyunserver.Business.Server.{Server, int_field}
use qinyunserver.Business.Transaction.{
  Kinds, backward, Piece, went_on, attempt-Piece, threw, after-Piece, Transaction, Transactional,
  unless-Transactional, when-Transactional, or_throw-Transactional, need_connection-Transactional,
  transact-Transactional,
}
use qinyunserver.Business.Handlers.Assign.{
  listed, assign_sql, assign_member, assign_members, handle_batch_assign_members,
}

module _ (J : JsonLib) (D : Mysql) where
  -- The insert for one user: the activity of the request and the user's own id, assigned.
  pub data Assigns (json v : J.Value) (sql : String) : Type 0 where
    assigns :
        (activity_id user_id : ℤ)
        → int_field J json "activity_id" ≡ some activity_id
        → J.get_int v ≡ some user_id
        → sql
          ≡ "INSERT INTO activity_members (activity_id, user_id, assign_type, sign_in_status, duration_hours, is_attended) "
            ++ "VALUES ("
            ++ int_to_string activity_id
            ++ ", "
            ++ int_to_string user_id
            ++ ", 1, 0, 0.0, 0) ON DUPLICATE KEY UPDATE assign_type = 1;"
        → Assigns json v sql

  -- One insert for each user of the request.
  abbrev pub Assignments : J.Value → Kinds
  Assignments json = backward (Assigns json) (listed J D json "user_ids")

  module _ (json : J.Value) (activity_id : ℤ)
      (given : int_field J json "activity_id" ≡ some activity_id) where
    assign_member-Piece :
        (v : J.Value) (s : Server D.Conn)
        → Piece tt (Assigns json v ∷ []) s (assign_member J D activity_id v s)
    unfolding assign_member ◌>>=◌ or_throw
    assign_member-Piece v s = elim (Option-cases (J.get_int v)) [
      | inl e ↦ rw e (threw refl refl)
      | inr (user_id, e) ↦
          rw e
            (attempt-Piece D (Assigns json v) (assign_sql J D activity_id user_id) _ _ s
              (assigns activity_id user_id given e refl)).1
    ]

    assign_members-Piece :
        (ids : List J.Value) (k : ℕ) (s : Server D.Conn)
        → Piece
            (length ids + k)
            (backward (Assigns json) ids)
            s
            (assign_members J D activity_id ids k s)
    unfolding assign_members ◌>>◌
    assign_members-Piece [] k s = went_on [] (ap done (omega arith)) refl tt tt refl
    assign_members-Piece (v ∷ ids) k s =
        subst
          (λ n.
            Piece n (backward (Assigns json) (v ∷ ids)) s
              (assign_members J D activity_id (v ∷ ids) k s))
          (omega arith)
          (after-Piece s (λ _. assign_members J D activity_id ids (suc k)) (assign_member-Piece v s)
            (λ s₁. assign_members-Piece ids (suc k) s₁))

  -- A batch assignment gives one insert for each user of the request, in order, that puts that user on the
  -- activity of the request; all of them succeed, and it commits. Or it stops at the first statement that
  -- fails and rolls back; or it refuses the request before any statement; or an
  -- exception leaves it unanswered. The answer is ok in the first case alone.
  pub handle_batch_assign_members-Transaction :
      (json : J.Value) (s : Server D.Conn)
      → Transaction (Assignments json) s (handle_batch_assign_members J D json s)
  unfolding handle_batch_assign_members
  handle_batch_assign_members-Transaction json s =
      let whole : Transactional (Assignments json) (handle_batch_assign_members J D json) =
        unless-Transactional _ _ _ (
          or_throw-Transactional _ (λ activity_id e. when-Transactional _ _ _ (
            need_connection-Transactional D _ (
              transact-Transactional D
                (assign_members J D activity_id (listed J D json "user_ids") 0) _
                (assign_members-Piece json activity_id e (listed J D json "user_ids") 0))))) in
      whole.run s
