-- ===== src/Business/Handlers/Template/Upload.antt =====
-- The transaction of `handleUploadSchedule` in server/business/BusinessServer.cpp.
use Prim.Native.String.{String, ◌++◌ as str_append}
use qinyunserver.Base.{
  sym, append_assoc, ℕ, ◌≡◌, refl, ap, ◌∙◌, inl, inr, Bool, true, false, Option, none, some, List,
  [], ◌∷◌, ◌++◌, length, length-append, All, arith,
}
use qinyunserver.Base.Int.{ℤ, minus}
use qinyunserver.Business.Monad.{
  M, Step, done, returned, thrown, aborted, after, ◌>>=◌, ◌>>◌, or_throw, unless, for_each, guarded,
  call, caught, ended,
}
use qinyunserver.Business.Interface.{JsonLib, Mysql}
use qinyunserver.Business.Server.{
  Server, Field, phrase, ok_reply, error_reply, send_error, send_response, execute, int_field,
}
use qinyunserver.Business.Owed.{Silent-for_each}
use qinyunserver.Business.Statements.{Grows, Giving-for_each}
use qinyunserver.Business.Schedule.{rebuild_user_schedules}
use qinyunserver.Business.Schedule.Silent.{rebuild_user_schedules-Silent}
use qinyunserver.Business.Schedule.Given.{Rebuilds, rebuild_user_schedules-Giving}
use qinyunserver.Business.Handlers.Assign.{listed}
use qinyunserver.Business.Handlers.Template.{
  course_owner, course_delete, insert_course, replace_courses, handle_upload_schedule,
}
use qinyunserver.Business.Handlers.Template.Courses.{
  Inserts, for_each-Counted, insert_course-Counted, insert_course-Giving, insert_course-Silent,
}

abbrev uploaded : List (String × Field)
uploaded = ("status", phrase "ok") ∷ ("action", phrase "UPLOAD_SCHEDULE") ∷ []

module _ (D : Mysql) (is_public : Bool) (user_id : ℤ) (target_class : String) (n : ℕ)
    (message : String) where
  -- What stands in the log behind the inserts.
  abbrev begun : (start del : Bool) → List (String × Bool) → List (String × Bool)
  begun start del before =
      (course_delete is_public user_id target_class, del) ∷ ("START TRANSACTION;", start) ∷ before

  abbrev Inserted : List (String × Bool) → Type 0
  Inserted batch = All (λ e. Inserts (course_owner is_public user_id target_class) e.0) batch

  abbrev Rebuilt : List (String × Bool) → Type 0
  Rebuilt batch = All (λ e. Rebuilds D user_id e.0) batch

  -- The courses of an owner are replaced: START TRANSACTION, the deletion, one insert for each course,
  -- COMMIT, statements that rebuild the masks, and ok; or ROLLBACK and an error behind some inserts; or
  -- ROLLBACK and an error behind COMMIT; or a failed assertion ends the process behind the deletion, with
  -- nothing answered.
  pub data Replaced (s : Server D.Conn) (r : Step (Unit {0}) × Server D.Conn) : Type 0 where
    replaced :
        (rebuilt inserted : List (String × Bool)) (start del end : Bool)
        → r.0 ≡ done tt
        → r.1.log ≡ rebuilt ++ (("COMMIT;", end) ∷ (inserted ++ begun start del s.log))
        → Rebuilt rebuilt
        → Inserted inserted
        → length inserted ≡ n
        → r.1.sent ≡ ok_reply uploaded ∷ s.sent
        → Replaced s r
    taken_back :
        (inserted : List (String × Bool)) (start del back : Bool)
        → r.0 ≡ returned
        → r.1.log ≡ ("ROLLBACK;", back) ∷ inserted ++ begun start del s.log
        → Inserted inserted
        → r.1.sent ≡ error_reply (minus 502) message ∷ s.sent
        → Replaced s r
    too_late :
        (rebuilt inserted : List (String × Bool)) (start del end back : Bool)
        → r.0 ≡ returned
        → r.1.log
          ≡ ("ROLLBACK;", back) ∷ rebuilt
            ++ (("COMMIT;", end) ∷ (inserted ++ begun start del s.log))
        → Rebuilt rebuilt
        → Inserted inserted
        → length inserted ≡ n
        → r.1.sent ≡ error_reply (minus 502) message ∷ s.sent
        → Replaced s r
    died :
        (batch : List (String × Bool)) (start del : Bool)
        → r.0 ≡ aborted
        → r.1.log ≡ batch ++ begun start del s.log
        → r.1.sent ≡ s.sent
        → Replaced s r

  -- The end of the try block, behind COMMIT, for each way in which the rebuilding ends.
  committed :
      (x : Step (Unit {0})) (s s₃ s₄ : Server D.Conn) (inserted : List (String × Bool))
      (start del end : Bool)
      → s₃.log ≡ ("COMMIT;", end) ∷ inserted ++ begun start del s.log
      → Inserted inserted
      → length inserted ≡ n
      → s₃.sent ≡ s.sent
      → Grows (Rebuilds D user_id) s₃.log s₄.log
      → s₄.sent ≡ s₃.sent
      → Replaced s (
          caught
            (after (ended (x, s₄)).0 (ended (x, s₄)).1 (λ _. send_response uploaded))
            (execute D "ROLLBACK;" >> send_error (minus 502) message))
  unfolding ◌>>◌
  committed (done _) s s₃ s₄ inserted start del end e h l q (rebuilt, g, k) q' =
      replaced rebuilt inserted start del end refl (g ∙ ap (λ rest. rebuilt ++ rest) e) k h l
        (ap (λ rest. ok_reply uploaded ∷ rest) (q' ∙ q))
  committed returned s s₃ s₄ inserted start del end e h l q (rebuilt, g, k) q' =
      replaced rebuilt inserted start del end refl (g ∙ ap (λ rest. rebuilt ++ rest) e) k h l
        (ap (λ rest. ok_reply uploaded ∷ rest) (q' ∙ q))
  committed thrown s s₃ s₄ inserted start del end e h l q (rebuilt, g, k) q' =
      too_late rebuilt inserted start del end (D.query "ROLLBACK;" s₄.conn).0 refl
        (ap (λ rest. ("ROLLBACK;", (D.query "ROLLBACK;" s₄.conn).0) ∷ rest)
          (g ∙ ap (λ rest. rebuilt ++ rest) e))
        k h l (ap (λ rest. error_reply (minus 502) message ∷ rest) (q' ∙ q))
  committed aborted s s₃ s₄ inserted start del end e h l q (rebuilt, g, k) q' =
      died (rebuilt ++ (("COMMIT;", end) ∷ inserted)) start del refl
        (g
          ∙ ap (λ rest. rebuilt ++ rest) e
          ∙ sym (append_assoc rebuilt (("COMMIT;", end) ∷ inserted) (begun start del s.log)))
        (q' ∙ q)

module _ (J : JsonLib) (D : Mysql) where
  -- The transaction from START TRANSACTION on.
  transaction-Replaced :
      (is_public : Bool) (user_id : ℤ) (target_class : String) (courses : List J.Value)
      (message : String) (s : Server D.Conn)
      → Replaced D is_public user_id target_class (length courses) message s (
          (execute D "START TRANSACTION;"
              >> guarded
                  (replace_courses J D is_public user_id target_class courses)
                  (execute D "ROLLBACK;" >> send_error (minus 502) message))
            s)
  unfolding replace_courses guarded call ◌>>◌
  transaction-Replaced is_public user_id target_class courses message s =
      let owner = course_owner is_public user_id target_class in
      let puts = for_each courses (insert_course J D owner) in
      let s₁ =
        (execute D (course_delete is_public user_id target_class)
          (execute D "START TRANSACTION;" s).1).1 in
      let s₂ = (puts s₁).1 in
      let s₃ = (execute D "COMMIT;" s₂).1 in
      let (inserted, e, h) = (Giving-for_each courses _ (insert_course-Giving J D owner)).at s₁ in
      let q = (Silent-for_each courses _ (insert_course-Silent J D owner)).at s₁ in
      let rebuild = rebuild_user_schedules D user_id in
      elim ((for_each-Counted _ (insert_course-Counted J D owner) courses).at s₁) [
        | inl (o, l) ↦ rw o (
            committed D is_public user_id target_class (length courses) message (rebuild s₃).0 s s₃
              (rebuild s₃).1 inserted _ _ _
              (ap (λ rest. ("COMMIT;", (D.query "COMMIT;" s₂.conn).0) ∷ rest) e) h
              (omega (arith, l, ap length e, length-append inserted s₁.log)) q
              ((rebuild_user_schedules-Giving D user_id).at s₃)
              ((rebuild_user_schedules-Silent D user_id).at s₃))
        | inr (inr o) ↦ rw o (died inserted _ _ refl e q)
        | inr (inl o) ↦ rw o (
            taken_back inserted _ _ _ refl
              (ap (λ rest. ("ROLLBACK;", (D.query "ROLLBACK;" s₂.conn).0) ∷ rest) e) h
              (ap (λ rest. error_reply (minus 502) message ∷ rest) q))
      ]

  -- What an upload comes to. It is refused with an error, or a value of the request of another kind has
  -- an exception leave it: both before any statement. Or the courses of the owner that it names are
  -- replaced.
  pub data Upload (json : J.Value) (s : Server D.Conn) (r : Step (Unit {0}) × Server D.Conn)
      : Type 0 where
    refused :
        r.0 ≡ returned
        → r.1.log ≡ s.log
        → r.1.sent ≡ error_reply (minus 11) "Param error" ∷ s.sent
        → Upload json s r
    left : r.0 ≡ thrown → r.1.log ≡ s.log → r.1.sent ≡ s.sent → Upload json s r
    tried :
        (is_public : Bool) (user_id : ℤ) (target_class : String)
        → int_field J json "user_id" ≡ some user_id
        → J.value_bool json "is_public" false ≡ some is_public
        → J.value_string json "target_class" "" ≡ some target_class
        → Replaced D is_public user_id target_class
            (length (listed J D json "courses"))
            (str_append "Transaction failed: " (J.what json))
            s
            r
        → Upload json s r

  record Uploading (json : J.Value) (m : M (Server D.Conn) (Unit {0})) : Type 0 where
    run : (s : Server D.Conn) → Upload json s (m s)

  unless-Uploading :
      (json : J.Value) {rest : M (Server D.Conn) (Unit {0})} (good : Bool)
      → Uploading json rest
      → Uploading json (unless good (send_error (minus 11) "Param error") >> rest)
  unfolding ◌>>◌ unless
  unless-Uploading json true h = record { run = λ s. h.run s }
  unless-Uploading json false h = record { run = λ s. refused refl refl refl }

  or_throw-Uploading :
      {A : Type 0} (json : J.Value) (x : Option A) {f : A → M (Server D.Conn) (Unit {0})}
      → ((a : A) → x ≡ some a → Uploading json (f a))
      → Uploading json (or_throw x >>= f)
  unfolding ◌>>=◌ or_throw
  or_throw-Uploading json none h = record { run = λ s. left refl refl refl }
  or_throw-Uploading json (some a) h = record { run = λ s. (h a refl).run s }

  -- Uploading a schedule ends in one of six ways. It is refused with an error, or left by an exception
  -- with nothing answered, both before any statement. It gives START TRANSACTION, the deletion of the
  -- courses of the user or the class that the request names, one insert for each course, COMMIT and
  -- statements that rebuild the user's masks, and answers ok, with any of these statements failed or not.
  -- It gives ROLLBACK behind some inserts and answers one error. It gives all the inserts, COMMIT and
  -- some of the statements on the masks, and then ROLLBACK and one error. Or a failed assertion ends the
  -- process behind the deletion, with nothing answered.
  pub handle_upload_schedule-Upload :
      (json : J.Value) (s : Server D.Conn) → Upload json s (handle_upload_schedule J D json s)
  unfolding handle_upload_schedule
  handle_upload_schedule-Upload json s =
      let whole : Uploading json (handle_upload_schedule J D json) = unless-Uploading json _ (
        or_throw-Uploading json _ (λ user_id e. or_throw-Uploading json _ (λ is_public k.
          or_throw-Uploading json _ (λ target_class l. record {
            run = λ s₁. tried is_public user_id target_class e k l (
                transaction-Replaced is_public user_id target_class (listed J D json "courses") _
                  s₁);
          })))) in
      whole.run s
