-- ===== src/Business/Handlers/Template/Courses.antt =====
-- The courses that `handleUploadSchedule` of server/business/BusinessServer.cpp puts in.
use Prim.Native.String.{String, ◌++◌ as str_append}
use qinyunserver.Base.{
  ℕ, ◌+◌, ◌≡◌, refl, ◌∙◌, ◌⊎◌, inl, inr, Option, none, some, List, [], ◌∷◌, length, arith,
}
use qinyunserver.Business.Monad.{M, done, thrown, aborted, ◌>>=◌, or_throw, or_abort, for_each}
use qinyunserver.Business.Interface.{JsonLib, Mysql}
use qinyunserver.Business.Server.{Server}
use qinyunserver.Business.Owed.{Silent}
use qinyunserver.Business.Answers.{silence}
use qinyunserver.Business.Statements.{
  Giving, Giving->>=, Giving-or_throw, Giving-or_abort, Giving-execute,
}
use qinyunserver.Business.Handlers.Template.{insert_course}

-- A statement that puts a course of an owner in.
pub data Inserts (owner : String) : String → Type 0 where
  inserts :
      (rest : String)
      → Inserts owner (
          str_append
            "INSERT INTO course_templates (user_id, class_identifier, course_name, day_of_week, period, time_mask, start_week, end_week, week_type) VALUES "
            (str_append owner rest))

-- A part that goes on has given `n` statements, or an exception or a failed assertion leaves it.
pub record Counted {C : Type 0} (n : ℕ) (m : M (Server C) (Unit {0})) : Type 0 where
  pub at :
      (s : Server C)
      → (((m s).0 ≡ done tt) × (length (m s).1.log ≡ n + length s.log))
        ⊎ (((m s).0 ≡ thrown) ⊎ ((m s).0 ≡ aborted))

or_throw-Counted :
    {C A : Type 0} {n : ℕ} (x : Option A) {f : A → M (Server C) (Unit {0})}
    → ((a : A) → Counted n (f a))
    → Counted n (or_throw x >>= f)
unfolding ◌>>=◌ or_throw
or_throw-Counted none h = record { at = λ s. inr (inl refl) }
or_throw-Counted (some a) h = record { at = λ s. (h a).at s }

or_abort-Counted :
    {C A : Type 0} {n : ℕ} (x : Option A) {f : A → M (Server C) (Unit {0})}
    → ((a : A) → Counted n (f a))
    → Counted n (or_abort x >>= f)
unfolding ◌>>=◌ or_abort
or_abort-Counted none h = record { at = λ s. inr (inr refl) }
or_abort-Counted (some a) h = record { at = λ s. (h a).at s }

pub for_each-Counted :
    {C A : Type 0} (body : A → M (Server C) (Unit {0}))
    → ((a : A) → Counted 1 (body a))
    → (as' : List A) → Counted (length as') (for_each as' body)
unfolding for_each
for_each-Counted body h [] = record { at = λ s. inl (refl, omega arith) }
for_each-Counted body h (a ∷ as') = record {
  at = λ s. elim ((h a).at s) [
    | inl (o, l) ↦ rw o (elim ((for_each-Counted body h as').at (body a s).1) [
      | inl (o', l') ↦ inl (o', l' ∙ omega (arith, l))
      | inr o' ↦ inr o'
    ])
    | inr (inl o) ↦ rw o (inr (inl refl))
    | inr (inr o) ↦ rw o (inr (inr refl))
  ];
}

module _ (J : JsonLib) (D : Mysql) where
  pub insert_course-Counted : (owner : String) (c : J.Value) → Counted 1 (insert_course J D owner c)
  unfolding insert_course
  insert_course-Counted owner c = or_throw-Counted _ (λ _. or_throw-Counted _ (λ _.
      or_abort-Counted _ (λ _. or_throw-Counted _ (λ _. or_abort-Counted _ (λ _.
        or_throw-Counted _ (λ _. or_throw-Counted _ (λ _.
          or_throw-Counted _
            (λ _. or_throw-Counted _ (λ _. record { at = λ s. inl (refl, omega arith) })))))))))

  pub insert_course-Giving :
      (owner : String) (c : J.Value) → Giving (Inserts owner) (insert_course J D owner c)
  unfolding insert_course
  insert_course-Giving owner c = read _ (λ _. read _ (λ _. need _ (λ _. read _ (λ _. need _ (λ _.
      read _ (λ _. read _ (λ _. read _ (λ _. read _ (λ _. Giving-execute D _ (inserts _))))))))))
    where
      read :
          {A : Type 0} (x : Option A) {f : A → M (Server D.Conn) (Unit {0})}
          → ((a : A) → Giving (Inserts owner) (f a))
          → Giving (Inserts owner) (or_throw x >>= f)
      read x h = Giving->>= _ _ (Giving-or_throw x) h

      need :
          {A : Type 0} (x : Option A) {f : A → M (Server D.Conn) (Unit {0})}
          → ((a : A) → Giving (Inserts owner) (f a))
          → Giving (Inserts owner) (or_abort x >>= f)
      need x h = Giving->>= _ _ (Giving-or_abort x) h

  pub insert_course-Silent : (owner : String) (c : J.Value) → Silent (insert_course J D owner c)
  unfolding insert_course
  insert_course-Silent owner c = search silence depth 40
