-- ===== src/Business/Handlers/Add.antt =====
-- The transaction of `handleAddActivity` in server/business/BusinessServer.cpp.
use Prim.Native.String.{String, ◌++◌}
use text.Mathlib.Text.{◌==◌ as str_eq}
use qinyunserver.Base.Int.{pos}
use qinyunserver.Business.Text.{int_to_string, to_string}
use qinyunserver.Business.Calendar.{convert_date_to_week_and_day, calculate_hour_mask}
use qinyunserver.Base.{
  ◌≡◌, refl, ◌⊎◌, inl, inr, not, Bool-cases, List, [], ◌∷◌, Option, none, some, if◌then◌else◌,
}
use qinyunserver.Business.Monad.{M, ◌>>=◌, ◌>>◌, or_throw}
use qinyunserver.Business.Interface.{JsonLib, Mysql, Calendar}
use qinyunserver.Business.Server.{Server, string_field, escape_string, cached_term_start}
use qinyunserver.Business.Transaction.{
  Kinds, backward, Piece, threw, attempt-Piece, for_each-Piece, Transaction, Transactional,
  unless-Transactional, or_throw-Transactional, transact-Transactional,
}
use qinyunserver.Business.Handlers.Assign.{listed}
use qinyunserver.Business.Handlers.Edit.{Draft, add_instance, add_instances, handle_add_activity}

-- A piece from every state.
abbrev Piecing : {C A : Type 0} → A → Kinds → M (Server C) A → Type 0
Piecing v n m = (s : Server _) → Piece v n s (m s)

module _ {C A B : Type 0} {v : B} {n : Kinds} where
  or_throw-Piece :
      (x : Option A) {f : A → M (Server C) B}
      → ((a : A) → x ≡ some a → Piecing v n (f a))
      → Piecing v n (or_throw x >>= f)
  unfolding ◌>>=◌ or_throw
  or_throw-Piece none h s = threw refl refl
  or_throw-Piece (some a) h s = h a refl s

module _ (D : Mysql) where
  -- A text as it is put into a statement: escaped, or as it is where it is empty or there is no
  -- connection.
  abbrev pub IsEscaped : String → String → Type 0
  IsEscaped text t = (t ≡ text) ⊎ ((conn : D.Conn) × (t ≡ D.escape conn text))

  escape-IsEscaped :
      (text : String) (s : Server D.Conn)
      → IsEscaped text
          (if not s.connected then text else if str_eq text "" then text else D.escape s.conn text)
  escape-IsEscaped text s = elim (Bool-cases (not s.connected)) [
    | inl alone ↦ rw alone (inl refl)
    | inr linked ↦ rw linked (elim (Bool-cases (str_eq text "")) [
      | inl blank ↦ rw blank (inl refl)
      | inr filled ↦ rw filled (inr (s.conn, refl))
    ])
  ]

  escape-Piece :
      {B : Type 0} {v : B} {n : Kinds} (text : String) {f : String → M (Server D.Conn) B}
      → ((t : String) → IsEscaped text t → Piecing v n (f t))
      → Piecing v n (escape_string D text >>= f)
  unfolding ◌>>=◌ escape_string
  escape-Piece text h s = h _ (escape-IsEscaped text s) s

  cached-Piece :
      {B : Type 0} {v : B} {n : Kinds} {f : String → M (Server D.Conn) B}
      → ((t : String) → Piecing v n (f t))
      → Piecing v n (cached_term_start >>= f)
  unfolding ◌>>=◌
  cached-Piece h s = h _ s

  escape-Transactional :
      {n : Kinds} (text : String) {f : String → M (Server D.Conn) (Unit {0})}
      → ((t : String) → IsEscaped text t → Transactional n (f t))
      → Transactional n (escape_string D text >>= f)
  unfolding ◌>>=◌ escape_string
  escape-Transactional text h = record { run = λ s. (h _ (escape-IsEscaped text s)).run s }

  module _ (J : JsonLib) (T : Calendar) where
    -- What the instances share is what the request says.
    pub record IsGiven (json : J.Value) (a : Draft) : Type 0 where
      title : (t : String) × (J.value_string json "title" "活动" ≡ some t) × IsEscaped t a.title
      desc : (t : String) × (J.value_string json "description" "无描述" ≡ some t) × IsEscaped t a.desc
      loc : (t : String) × (J.value_string json "location" "无地点" ≡ some t) × IsEscaped t a.loc
      organizer_id : J.value_int json "organizer_id" (pos 0) ≡ some a.organizer_id
      dept_id : J.value_int json "department_id" (pos 1) ≡ some a.dept_id
      max_participants : J.value_int json "max_participants" (pos 30) ≡ some a.max_participants
      sign_deadline : J.value_string json "sign_deadline" "" ≡ some a.sign_deadline
      period_type : J.value_int json "period_type" (pos 0) ≡ some a.period_type

    -- The insert for one instance: what the request says of all of them, and the date, the times and the
    -- duration of this one, with the week of the date and the hours between the times.
    pub data Adds (json item : J.Value) (sql : String) : Type 0 where
      adds :
          (a : Draft) (date start_time end_time term_start escaped : String) (duration : J.Double)
          → IsGiven json a
          → string_field J item "date" ≡ some date
          → string_field J item "start_time" ≡ some start_time
          → string_field J item "end_time" ≡ some end_time
          → J.value_double item "duration_h" J.one ≡ some duration
          → IsEscaped a.sign_deadline escaped
          → sql
            ≡ "INSERT INTO activities (title, description, location, organizer_id, department_id, "
              ++ "activity_week, time_mask, max_participants, sign_deadline, status, default_duration, "
              ++ "start_date, end_date, start_time, end_time, period_type) VALUES ("
              ++ "'"
              ++ a.title
              ++ "', '"
              ++ a.desc
              ++ "', '"
              ++ a.loc
              ++ "', "
              ++ int_to_string a.organizer_id
              ++ ", "
              ++ int_to_string a.dept_id
              ++ ", "
              ++ to_string
                  (convert_date_to_week_and_day T term_start date
                    (record { week = 1; day = 1 })).1.week
              ++ ", "
              ++ to_string (calculate_hour_mask T start_time end_time)
              ++ ", "
              ++ int_to_string a.max_participants
              ++ ", "
              ++ (if str_eq a.sign_deadline "" then "NULL" else "'" ++ escaped ++ "'")
              ++ ", 1, "
              ++ J.show_tenths duration
              ++ ", "
              ++ "'"
              ++ date
              ++ "', '"
              ++ date
              ++ "', '"
              ++ start_time
              ++ "', '"
              ++ end_time
              ++ "', "
              ++ int_to_string a.period_type
              ++ ");"
          → Adds json item sql

    -- One insert for each instance of the request.
    abbrev pub Additions : J.Value → Kinds
    Additions json = backward (Adds json) (listed J D json "instances")

    module _ (json : J.Value) (a : Draft) (g : IsGiven json a) where
      add_instance-Piece :
          (item : J.Value) → Piecing tt (Adds json item ∷ []) (add_instance J D T a item)
      unfolding add_instance
      add_instance-Piece item = or_throw-Piece _ (λ date e. or_throw-Piece _ (λ start_time e₁.
          or_throw-Piece _ (λ end_time e₂. cached-Piece (λ term_start.
            or_throw-Piece _ (λ duration e₃. escape-Piece _ (λ escaped x s.
              (attempt-Piece D (Adds json item) _ _ _ s (
                adds a date start_time end_time term_start escaped duration g e e₁ e₂ e₃ x
                  refl)).1))))))

      add_instances-Piece :
          (items : List J.Value)
          → Piecing tt (backward (Adds json) items) (add_instances J D T a items)
      unfolding add_instances
      add_instances-Piece items =
          for_each-Piece (Adds json) (add_instance J D T a) add_instance-Piece items

    -- Adding activities gives one insert for each instance of the request, in order, with what the request
    -- says of all and of that one; all of them succeed, and it commits. Or it stops at the first that fails
    -- and rolls back; or it refuses the request before any statement; or an exception leaves it unanswered.
    -- The answer is ok in the first case alone.
    pub handle_add_activity-Transaction :
        (json : J.Value) (s : Server D.Conn)
        → Transaction (Additions json) s (handle_add_activity J D T json s)
    unfolding handle_add_activity ◌>>◌ ◌>>=◌
    handle_add_activity-Transaction json s =
        let whole : Transactional (Additions json) (handle_add_activity J D T json) =
          unless-Transactional _ _ _ (
            or_throw-Transactional _ (λ t e. escape-Transactional _ (λ title x.
              or_throw-Transactional _ (λ d e₁. escape-Transactional _ (λ desc x₁.
                or_throw-Transactional _ (λ l e₂. escape-Transactional _ (λ loc x₂.
                  or_throw-Transactional _ (λ organizer_id e₃.
                    or_throw-Transactional _ (λ dept_id e₄.
                      or_throw-Transactional _ (λ max_participants e₅.
                        or_throw-Transactional _ (λ sign_deadline e₆.
                          or_throw-Transactional _ (λ period_type e₇.
                            transact-Transactional D
                              (add_instances J D T _ (listed J D json "instances")) _
                              (add_instances-Piece json _
                                (record {
                                  title = (t, e, x);
                                  desc = (d, e₁, x₁);
                                  loc = (l, e₂, x₂);
                                  organizer_id = e₃;
                                  dept_id = e₄;
                                  max_participants = e₅;
                                  sign_deadline = e₆;
                                  period_type = e₇;
                                })
                                (listed J D json "instances")))))))))))))) in
        whole.run s
