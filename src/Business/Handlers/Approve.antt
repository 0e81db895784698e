-- ===== src/Business/Handlers/Approve.antt =====
-- Rights in server/business/BusinessServer.cpp, and what an approval answers.
use qinyunserver.Base.{
  ◌≡◌, ◌≢◌, refl, Bool, true, false, Bool-cases, inl, inr, Option-cases, none, some,
}
use qinyunserver.Base.Int.{ℤ, leb_ℤ}
use qinyunserver.Business.Monad.{◌>>=◌, ◌>>◌, or_throw, unless}
use qinyunserver.Business.Interface.{JsonLib, Mysql}
use qinyunserver.Business.Server.{Server, int_field, is_authorized, role_captain, role_minister}
use qinyunserver.Business.Handlers.Activity.{handle_settle_activity, handle_approve_application}

module _ (J : JsonLib) (D : Mysql) where
  -- The request carries a role of at most the level.
  abbrev pub HasRole : J.Value → ℤ → Type 0
  HasRole json level =
      (role : ℤ) × (int_field J json "request_user_role" ≡ some role) × (leb_ℤ role level ≡ true)

  authorized-HasRole :
      (json : J.Value) (level : ℤ) → is_authorized J json level ≡ some true → HasRole json level
  unfolding is_authorized
  authorized-HasRole json level h = elim (Bool-cases (J.contains json "request_user_role")) [
    | inr e ↦ absurd (no (rw (e, is_authorized) at h))
    | inl e ↦ elim (Option-cases (int_field J json "request_user_role")) [
      | inl e₁ ↦ absurd (nothing (rw (e, e₁, is_authorized) at h))
      | inr (role, e₁) ↦ (role, e₁, same (rw (e, e₁, is_authorized) at h))
    ]
  ]
    where
      no : some false ≡ some true → ⊥
      no h = cc

      nothing : none ≡ some true → ⊥
      nothing h = cc

      same : {b : Bool} → some b ≡ some true → b ≡ true
      same h = cc

  -- A settlement or an approval gives a statement to the database only for a request that carries a role
  -- of at most 20, a captain's, or of at most 30, a minister's: the log is as before for any other.
  pub handle_settle_activity-HasRole :
      (json : J.Value) (s : Server D.Conn)
      → ((handle_settle_activity J D json s).1.log ≢ s.log → HasRole json role_captain)
        × ((handle_approve_application J D json s).1.log ≢ s.log → HasRole json role_minister)
  unfolding handle_settle_activity handle_approve_application ◌>>=◌ ◌>>◌ or_throw unless
  handle_settle_activity-HasRole json s = (settling, approving)
    where
      settling : (handle_settle_activity J D json s).1.log ≢ s.log → HasRole json role_captain
      settling h = elim (Option-cases (is_authorized J json role_captain)) [
        | inl e ↦ absurd (h (rw e refl))
        | inr (false, e) ↦ absurd (h (rw e refl))
        | inr (true, e) ↦ authorized-HasRole json role_captain e
      ]

      approving : (handle_approve_application J D json s).1.log ≢ s.log → HasRole json role_minister
      approving h = elim (Option-cases (is_authorized J json role_minister)) [
        | inl e ↦ absurd (h (rw e refl))
        | inr (false, e) ↦ absurd (h (rw e refl))
        | inr (true, e) ↦ authorized-HasRole json role_minister e
      ]
