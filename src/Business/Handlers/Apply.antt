-- ===== src/Business/Handlers/Apply.antt =====
-- Applying for an activity and leaving it in server/business/BusinessServer.cpp: when the database is
-- changed, and what is answered.
use Prim.Native.String.{String}
use text.Mathlib.Text.{◌==◌ as str_eq}
use qinyunserver.Base.{
  if◌then◌else◌, ◌≡◌, refl, sym, not, ◌&&◌, Bool, true, false, List, ◌∷◌, Bool-cases, inl, inr,
  some,
}
use qinyunserver.Base.Int.{ℤ, pos, ltb_ℤ, leb_ℤ, eq_ℤ}
use qinyunserver.Business.Monad.{Step, done, returned, ◌>>=◌, ◌>>◌, or_throw, unless, when, from}
use qinyunserver.Business.Interface.{JsonLib, Mysql, Row}
use qinyunserver.Business.Server.{Server, int_field, escape_string, error_reply, ok_reply, Field}
use qinyunserver.Business.Handlers.Activity.{
  int_column, apply_check, apply_insert, handle_apply_activity, leave_check, leave_delete,
  status_of, handle_leave_activity,
}

-- An activity recruits while its status is 1 and, where it has a limit, there is room.
abbrev pub recruits : ℤ → ℤ → ℤ → Bool
recruits status limit count = eq_ℤ status (pos 1) && not (ltb_ℤ (pos 0) limit && leb_ℤ limit count)

-- The handler ends: it answers ok, or one error.
abbrev pub AnswersOk : {C : Type 0} → Server C → Step (Unit {0}) × Server C → Type 0
AnswersOk s r =
    (r.0 ≡ done tt) × (fields : List (String × Field)) × (r.1.sent ≡ ok_reply fields ∷ s.sent)

abbrev pub AnswersError : {C : Type 0} → Server C → Step (Unit {0}) × Server C → Type 0
AnswersError s r =
    (r.0 ≡ returned)
    × (code : ℤ) × (message : String) × (r.1.sent ≡ error_reply code message ∷ s.sent)

false≢true : false ≡ true → ⊥
false≢true h = cc

module _ (J : JsonLib) (D : Mysql) (json : J.Value) (s : Server D.Conn) (activity_id user_id : ℤ)
    (names : (J.contains json "activity_id" && J.contains json "user_id") ≡ true)
    (activity : int_field J json "activity_id" ≡ some activity_id)
    (user : int_field J json "user_id" ≡ some user_id) where
  abbrev escaped : String → String
  escaped given =
      if not s.connected then given else if str_eq given "" then given else D.escape s.conn given

  -- For a request with both ids and a reason that is a text or missing, where the check succeeds and its
  -- first row holds three numbers, an application is written only if the activity recruits: one that does
  -- not gets an error and no statement but the check; one that does gets the insert, and the answer is ok
  -- where that succeeds and an error where it fails.
  pub handle_apply_activity_lem :
      (given : String) (conn : D.Conn) (row : Row) (rows : List Row) (status limit count : ℤ)
      → J.value_string json "reason" "" ≡ some given
      → D.query (apply_check J D activity_id) s.conn ≡ (true, conn)
      → D.store_result conn ≡ some (row ∷ rows)
      → int_column 0 row ≡ some status
      → int_column 1 row ≡ some limit
      → int_column 2 row ≡ some count
      → (recruits status limit count ≡ false
          → ((handle_apply_activity J D json s).1.log ≡ (apply_check J D activity_id, true) ∷ s.log)
            × AnswersError s (handle_apply_activity J D json s))
        × (recruits status limit count ≡ true
            → (reason : String) × (saved : Bool) × ((handle_apply_activity J D json s).1.log
                ≡ (apply_insert J D activity_id user_id reason, saved)
                  ∷ (apply_check J D activity_id, true)
                  ∷ s.log)
              × (saved ≡ true → AnswersOk s (handle_apply_activity J D json s))
              × (saved ≡ false → AnswersError s (handle_apply_activity J D json s)))
  unfolding handle_apply_activity escape_string ◌>>=◌ ◌>>◌ or_throw unless when from
  handle_apply_activity_lem given conn row rows status limit count e q r e₀ e₁ e₂ =
      elim (Bool-cases (eq_ℤ status (pos 1))) [
        | inr closed ↦
            rw (names, activity, user, e, q, r, e₀, e₁, e₂, closed)
              ((λ _. (refl, (refl, _, _, refl))), λ h. absurd (false≢true h))
        | inl recruiting ↦ elim (Bool-cases (ltb_ℤ (pos 0) limit && leb_ℤ limit count)) [
          | inl full ↦
              rw (names, activity, user, e, q, r, e₀, e₁, e₂, recruiting, full)
                ((λ _. (refl, (refl, _, _, refl))), λ h. absurd (false≢true h))
          | inr room ↦
              elim (Bool-cases
                (D.query (apply_insert J D activity_id user_id (escaped given)) conn).0) [
                  | inl saved ↦
                      rw (names, activity, user, e, q, r, e₀, e₁, e₂, recruiting, room, saved)
                        (
                          (λ h. absurd (false≢true (sym h))),
                          λ _. (
                            escaped given,
                            true,
                            refl,
                            (λ _. (refl, _, refl)),
                            λ h. absurd (false≢true (sym h)),
                          ),
                        )
                  | inr lost ↦
                      rw (names, activity, user, e, q, r, e₀, e₁, e₂, recruiting, room, lost)
                        (
                          (λ h. absurd (false≢true (sym h))),
                          λ _. (
                            escaped given,
                            false,
                            refl,
                            (λ h. absurd (false≢true h)),
                            λ _. (refl, _, _, refl),
                          ),
                        )
                ]
        ]
      ]

  -- For a request with both ids, where the check succeeds and its first row, if there is one, holds a
  -- number, a membership is deleted only while the activity has the status 1; one that is not found
  -- counts as the status 0. Any other gets an error and no statement but the check; with the status 1
  -- the answer is ok where the deletion succeeds and an error where it fails.
  pub handle_leave_activity_lem :
      (conn : D.Conn) (rows : List Row) (status : ℤ)
      → D.query (leave_check J D activity_id) s.conn ≡ (true, conn)
      → D.store_result conn ≡ some rows
      → status_of J D rows ≡ some status
      → (eq_ℤ status (pos 1) ≡ false
          → ((handle_leave_activity J D json s).1.log ≡ (leave_check J D activity_id, true) ∷ s.log)
            × AnswersError s (handle_leave_activity J D json s))
        × (eq_ℤ status (pos 1) ≡ true
            → (deleted : Bool) × ((handle_leave_activity J D json s).1.log
                ≡ (leave_delete J D activity_id user_id, deleted)
                  ∷ (leave_check J D activity_id, true)
                  ∷ s.log)
              × (deleted ≡ true → AnswersOk s (handle_leave_activity J D json s))
              × (deleted ≡ false → AnswersError s (handle_leave_activity J D json s)))
  unfolding handle_leave_activity ◌>>=◌ ◌>>◌ or_throw unless from
  handle_leave_activity_lem conn rows status q r f = (
    (λ closed. rw (names, activity, user, q, r, f, closed) (refl, (refl, _, _, refl))),
    λ recruiting. elim (Bool-cases (D.query (leave_delete J D activity_id user_id) conn).0) [
      | inl gone ↦
          rw (names, activity, user, q, r, f, recruiting, gone)
            (true, refl, (λ _. (refl, _, refl)), λ h. absurd (false≢true (sym h)))
      | inr kept ↦
          rw (names, activity, user, q, r, f, recruiting, kept)
            (false, refl, (λ h. absurd (false≢true h)), λ _. (refl, _, _, refl))
    ],
  )
