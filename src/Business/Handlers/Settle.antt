-- ===== src/Business/Handlers/Settle.antt =====
-- The transaction of `handleSettleActivity` in server/business/BusinessServer.cpp.
use Prim.Native.String.{String, ◌++◌}
use qinyunserver.Base.{◌≡◌, refl, some, List, [], ◌∷◌, inl, inr, Option-cases}
use qinyunserver.Base.Int.{ℤ}
use qinyunserver.Business.Monad.{◌>>=◌, ◌>>◌, or_throw, unless}
use qinyunserver.Business.Text.{int_to_string}
use qinyunserver.Business.Interface.{JsonLib, Mysql}
use qinyunserver.Business.Server.{Server, int_field}
use qinyunserver.Business.Transaction.{
  Kinds, backward, Piece, threw, after-Piece, attempt-Piece, for_each-Piece, Transaction,
  Transactional, unless-Transactional, or_throw-Transactional, transact-Transactional,
}
use qinyunserver.Business.Handlers.Assign.{listed}
use qinyunserver.Business.Handlers.Activity.{
  double_field, settle_member, close_activity, settle_results, handle_settle_activity,
}

module _ (J : JsonLib) (D : Mysql) where
  -- The update for one result: its duration, its status and its user, at the activity of the request.
  pub data Settles (json r : J.Value) (sql : String) : Type 0 where
    settles :
        (act_id : ℤ) (duration : J.Double) (status user_id : ℤ)
        → int_field J json "activity_id" ≡ some act_id
        → double_field J D r "duration" ≡ some duration
        → int_field J r "status" ≡ some status
        → int_field J r "user_id" ≡ some user_id
        → sql
          ≡ ("UPDATE activity_members SET duration_hours = " ++ J.show_double duration)
            ++ (", is_attended = " ++ int_to_string status)
            ++ (", sign_in_status = 1 WHERE activity_id = " ++ int_to_string act_id)
            ++ (" AND user_id = " ++ int_to_string user_id ++ ";")
        → Settles json r sql

  -- The update that gives the activity of the request the status 3.
  pub data Closes (json : J.Value) (sql : String) : Type 0 where
    closes :
        (act_id : ℤ)
        → int_field J json "activity_id" ≡ some act_id
        → sql ≡ "UPDATE activities SET status = 3 WHERE id = " ++ int_to_string act_id
        → Closes json sql

  -- One update for each result of the request, and behind them that of the activity.
  abbrev pub Settlement : J.Value → Kinds
  Settlement json = Closes json ∷ backward (Settles json) (listed J D json "results")

  module _ (json : J.Value) (act_id : ℤ)
      (given : int_field J json "activity_id" ≡ some act_id) where
    settle_member-Piece :
        (r : J.Value) (s : Server D.Conn)
        → Piece tt (Settles json r ∷ []) s (settle_member J D act_id r s)
    unfolding settle_member ◌>>=◌ ◌>>◌ or_throw unless
    settle_member-Piece r s = elim (Option-cases (double_field J D r "duration")) [
      | inl e ↦ rw e (threw refl refl)
      | inr (duration, e) ↦ elim (Option-cases (int_field J r "status")) [
        | inl e₁ ↦ rw (e, e₁) (threw refl refl)
        | inr (status, e₁) ↦ elim (Option-cases (int_field J r "user_id")) [
          | inl e₂ ↦ rw (e, e₁, e₂) (threw refl refl)
          | inr (user_id, e₂) ↦
              rw (e, e₁, e₂)
                ((attempt-Piece D (Settles json r) _ _ _ s
                  (settles act_id duration status user_id given e e₁ e₂ refl)).0)
        ]
      ]
    ]

    close_activity-Piece :
        (s : Server D.Conn) → Piece tt (Closes json ∷ []) s (close_activity J D act_id s)
    unfolding close_activity
    close_activity-Piece s = (attempt-Piece D (Closes json) _ _ _ s (closes act_id given refl)).0

    settle_results-Piece :
        (results : List J.Value) (s : Server D.Conn)
        → Piece tt
            (Closes json ∷ backward (Settles json) results)
            s
            (settle_results J D act_id results s)
    unfolding settle_results ◌>>◌
    settle_results-Piece results s =
        after-Piece s (λ _. close_activity J D act_id)
          (for_each-Piece (Settles json) (settle_member J D act_id) settle_member-Piece results s)
          close_activity-Piece

  -- A settlement gives one update for each result of the request, in order, with that result's duration,
  -- status and user, and then the one that closes the activity; all of them succeed, and it commits. Or it
  -- stops at the first statement that fails and rolls back; or it refuses the request before any
  -- statement; or an exception leaves it unanswered. The answer is ok in the first case alone.
  pub handle_settle_activity-Transaction :
      (json : J.Value) (s : Server D.Conn)
      → Transaction (Settlement json) s (handle_settle_activity J D json s)
  unfolding handle_settle_activity ◌>>◌ ◌>>=◌
  handle_settle_activity-Transaction json s =
      let whole : Transactional (Settlement json) (handle_settle_activity J D json) =
        or_throw-Transactional _ (λ authorized _. unless-Transactional _ _ authorized (
          or_throw-Transactional _ (λ act_id k.
            or_throw-Transactional (J.field json "results") (λ results e.
              rw (e, backward)
                (transact-Transactional D (settle_results J D act_id (J.elements results)) _
                  (settle_results-Piece json act_id k (J.elements results))))))) in
      whole.run s
