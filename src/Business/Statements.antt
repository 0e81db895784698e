-- ===== src/Business/Statements.antt =====
-- Which statements a handler of server/business/BusinessServer.cpp may give to the database: one rule for
-- each way to build a handler.
use Prim.Native.String.{String}
use qinyunserver.Base.{
  ◌≡◌, refl, sym, ap, ◌∙◌, Bool, true, false, Option, none, some, List, [], ◌∷◌, ◌++◌, append_assoc,
  All,
}
use qinyunserver.Base.Int.{ℤ}
use qinyunserver.Business.Monad.{
  M, Step, done, returned, thrown, aborted, or_abort, after, ◌>>=◌, ◌>>◌, pure, exit, or_throw,
  unless, for_each, from,
}
use qinyunserver.Business.Interface.{Mysql}
use qinyunserver.Business.Server.{
  Server, Field, send_response, send_error, fail_with, run_query, execute, store_result,
  need_connection, escape_string,
}

-- All the statements that were given in between are of a kind.
abbrev pub Grows : (String → Type 0) → List (String × Bool) → List (String × Bool) → Type 0
Grows P before later =
    (batch : List (String × Bool)) × (later ≡ batch ++ before) × All (λ e. P e.0) batch

pub record Giving (P : String → Type 0) {Conn A : Type 0} (m : M (Server Conn) A) : Type 0 where
  pub at : (s : Server Conn) → Grows P s.log (m s).1.log

All-append :
    (P : String → Type 0) (xs ys : List (String × Bool))
    → All (λ e. P e.0) xs
    → All (λ e. P e.0) ys
    → All (λ e. P e.0) (xs ++ ys)
All-append P [] ys a b = b
All-append P (x ∷ xs) ys a b = (a.0, All-append P xs ys a.1 b)

Grows-after :
    {Conn A B : Type 0} {f : A → M (Server Conn) B} (P : String → Type 0) (x : Step A)
    (s s₁ : Server Conn)
    → Grows P s.log s₁.log
    → ((a : A) → Giving P (f a))
    → Grows P s.log (after x s₁ f).1.log
Grows-after P (done a) s s₁ (batch, e, all) k =
    let (more, g, rest) = (k a).at s₁ in
    (
      more ++ batch,
      g ∙ ap (λ l. more ++ l) e ∙ sym (append_assoc more batch s.log),
      All-append P more batch rest all,
    )
Grows-after P returned s s₁ h k = h
Grows-after P thrown s s₁ h k = h
Grows-after P aborted s s₁ h k = h

module _ {P : String → Type 0} {Conn : Type 0} where
  pub Giving-pure : {A : Type 0} (a : A) → Giving P {Conn = Conn} (pure a)
  Giving-pure a = record { at = λ s. ([], refl, tt) }

  pub Giving-exit : {A : Type 0} → Giving P {Conn = Conn} {A = A} exit
  Giving-exit = record { at = λ s. ([], refl, tt) }

  pub Giving-or_throw : {A : Type 0} (x : Option A) → Giving P {Conn = Conn} (or_throw x)
  unfolding or_throw
  Giving-or_throw none = record { at = λ s. ([], refl, tt) }
  Giving-or_throw (some a) = record { at = λ s. ([], refl, tt) }

  pub Giving-or_abort : {A : Type 0} (x : Option A) → Giving P {Conn = Conn} (or_abort x)
  unfolding or_abort
  Giving-or_abort none = record { at = λ s. ([], refl, tt) }
  Giving-or_abort (some a) = record { at = λ s. ([], refl, tt) }

  pub Giving-send_error :
      {A : Type 0} (code : ℤ) (message : String)
      → Giving P {Conn = Conn} (send_error {A = A} code message)
  Giving-send_error code message = record { at = λ s. ([], refl, tt) }

  pub Giving-send_response :
      (fields : List (String × Field)) → Giving P {Conn = Conn} (send_response fields)
  Giving-send_response fields = record { at = λ s. ([], refl, tt) }

  pub Giving-unless :
      (b : Bool) (m : M (Server Conn) (Unit {0})) → Giving P m → Giving P (unless b m)
  unfolding unless
  Giving-unless true m h = record { at = λ s. ([], refl, tt) }
  Giving-unless false m h = record { at = λ s. h.at s }

  pub Giving->>= :
      {A B : Type 0} (m : M (Server Conn) A) (f : A → M (Server Conn) B)
      → Giving P m
      → ((a : A) → Giving P (f a))
      → Giving P (m >>= f)
  unfolding ◌>>=◌
  Giving->>= m f h k = record { at = λ s. Grows-after P (m s).0 s (m s).1 (h.at s) k }

  pub Giving->> :
      {B : Type 0} (m : M (Server Conn) (Unit {0})) (n : M (Server Conn) B)
      → Giving P m
      → Giving P n
      → Giving P (m >> n)
  unfolding ◌>>◌
  Giving->> m n h k = record { at = λ s. Grows-after P (m s).0 s (m s).1 (h.at s) (λ _. k) }

  pub Giving-for_each :
      {A : Type 0} (as' : List A) (body : A → M (Server Conn) (Unit {0}))
      → ((a : A) → Giving P (body a))
      → Giving P (for_each as' body)
  unfolding for_each
  Giving-for_each [] body h = record { at = λ s. ([], refl, tt) }
  Giving-for_each (a ∷ as') body h = record {
    at = λ s.
        Grows-after P (body a s).0 s (body a s).1 ((h a).at s) (λ _. Giving-for_each as' body h);
  }

  pub Giving-from :
      {A B : Type 0} (x : Option A) (m : M (Server Conn) B) (f : A → M (Server Conn) B)
      → Giving P m
      → ((a : A) → Giving P (f a))
      → Giving P (from x m f)
  unfolding from
  Giving-from none m f h k = h
  Giving-from (some a) m f h k = k a

module _ {P : String → Type 0} (D : Mysql) where
  pub Giving-run_query : (sql : String) → P sql → Giving P (run_query D sql)
  Giving-run_query sql h = record { at = λ s. ((sql, (D.query sql s.conn).0) ∷ [], refl, (h, tt)) }

  pub Giving-execute : (sql : String) → P sql → Giving P (execute D sql)
  Giving-execute sql h = record { at = λ s. ((sql, (D.query sql s.conn).0) ∷ [], refl, (h, tt)) }

  pub Giving-store_result : Giving P (store_result D)
  Giving-store_result = record { at = λ s. ([], refl, tt) }

  pub Giving-fail_with :
      {A : Type 0} (code : ℤ) (prefix : String) → Giving P (fail_with D {A = A} code prefix)
  unfolding fail_with
  Giving-fail_with code prefix = record { at = λ s. ([], refl, tt) }

  pub Giving-escape_string : (text : String) → Giving P (escape_string D text)
  unfolding escape_string
  Giving-escape_string text = record { at = λ s. ([], refl, tt) }

  pub Giving-need_connection : (message : String) → Giving P (need_connection D message)
  unfolding need_connection
  Giving-need_connection message = record {
    at = λ s. (Giving-unless s.connected _ (Giving-send_error _ message)).at s;
  }

pub ruleset statements = (
  Giving-pure, Giving-exit, Giving-or_throw, Giving-or_abort, Giving-send_error,
  Giving-send_response, Giving-unless, Giving->>=, Giving->>, Giving-for_each, Giving-from,
  Giving-run_query, Giving-execute, Giving-store_result, Giving-fail_with, Giving-escape_string,
  Giving-need_connection,
)
