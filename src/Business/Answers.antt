-- ===== src/Business/Answers.antt =====
-- How often a handler of server/business/BusinessServer.cpp answers: one rule for each way to build a
-- handler, for what it owes while it goes on and for how it ends.
use Prim.Native.String.{String}
use qinyunserver.Base.{refl, Bool, true, false, Option, none, some, List, [], ◌∷◌, if◌then◌else◌}
use qinyunserver.Base.Int.{ℤ}
use qinyunserver.Business.Monad.{
  M, ◌>>=◌, ◌>>◌, pure, or_throw, or_abort, unless, when, for_each, from, guarded, call,
}
use qinyunserver.Business.Interface.{Mysql}
use qinyunserver.Business.Server.{
  Server, Field, send_response, send_error, fail_with, run_query, execute, store_result,
  mysql_error, affected_rows, need_connection, escape_string, keep_term_start, cached_term_start,
}
use qinyunserver.Business.Owed.{
  Silent-or_abort, Owing, Silent, Answering, Owes-after, Ends-after, Owes-call, Ends-call,
  Ends-caught, Silent-pure, Silent-exit, Silent-or_throw, Silent-or_abort, Silent-unless,
  Silent->>=, Silent->>, Silent-for_each, Silent-from,
}

module _ {Conn : Type 0} where
  pub Owing-call : (m : M (Server Conn) (Unit {0})) → Silent m → Owing (call m)
  unfolding call
  Owing-call m h = record { at = λ s. Owes-call (m s).0 s (m s).1 (h.at s) }

  pub Answering-call : (m : M (Server Conn) (Unit {0})) → Answering m → Answering (call m)
  unfolding call
  Answering-call m h = record { at = λ s. Ends-call (m s).0 s (m s).1 (h.at s) }

  pub Answering-guarded :
      (m k : M (Server Conn) (Unit {0})) → Answering m → Answering k → Answering (guarded m k)
  unfolding guarded
  Answering-guarded m k h c = record { at = λ s. Ends-caught (m s).0 s (m s).1 (h.at s) c }

  pub Owing-keep_term_start : (date : String) → Owing {Conn = Conn} (keep_term_start date)
  Owing-keep_term_start date = record { at = λ s. refl }

  pub Owing-cached_term_start : Owing {Conn = Conn} cached_term_start
  Owing-cached_term_start = record { at = λ s. refl }

  pub Owing-pure : {A : Type 0} (a : A) → Owing {Conn = Conn} (pure a)
  Owing-pure a = record { at = λ s. refl }

  pub Owing-or_throw : {A : Type 0} (x : Option A) → Owing {Conn = Conn} (or_throw x)
  unfolding or_throw
  Owing-or_throw none = record { at = λ s. refl }
  Owing-or_throw (some a) = record { at = λ s. refl }

  pub Owing-or_abort : {A : Type 0} (x : Option A) → Owing {Conn = Conn} (or_abort x)
  unfolding or_abort
  Owing-or_abort none = record { at = λ s. refl }
  Owing-or_abort (some a) = record { at = λ s. refl }

  pub Owing-send_error :
      {A : Type 0} (code : ℤ) (message : String)
      → Owing {Conn = Conn} (send_error {A = A} code message)
  Owing-send_error code message = record { at = λ s. (_, refl) }

  pub Owing-unless : (b : Bool) (m : M (Server Conn) (Unit {0})) → Owing m → Owing (unless b m)
  unfolding unless
  Owing-unless true m h = record { at = λ s. refl }
  Owing-unless false m h = record { at = λ s. h.at s }

  pub Owing-when : (b : Bool) (m : M (Server Conn) (Unit {0})) → Owing m → Owing (when b m)
  unfolding when
  Owing-when true m h = record { at = λ s. h.at s }
  Owing-when false m h = record { at = λ s. refl }

  pub Owing->>= :
      {A B : Type 0} (m : M (Server Conn) A) (f : A → M (Server Conn) B)
      → Owing m
      → ((a : A) → Owing (f a))
      → Owing (m >>= f)
  unfolding ◌>>=◌
  Owing->>= m f h k = record { at = λ s. Owes-after (m s).0 s (m s).1 (h.at s) k }

  pub Owing->> :
      {B : Type 0} (m : M (Server Conn) (Unit {0})) (n : M (Server Conn) B)
      → Owing m
      → Owing n
      → Owing (m >> n)
  unfolding ◌>>◌
  Owing->> m n h k = record { at = λ s. Owes-after (m s).0 s (m s).1 (h.at s) (λ _. k) }

  pub Owing-for_each :
      {A : Type 0} (as' : List A) (body : A → M (Server Conn) (Unit {0}))
      → ((a : A) → Owing (body a))
      → Owing (for_each as' body)
  unfolding for_each
  Owing-for_each [] body h = record { at = λ s. refl }
  Owing-for_each (a ∷ as') body h = record {
    at = λ s. Owes-after (body a s).0 s (body a s).1 ((h a).at s) (λ _. Owing-for_each as' body h);
  }

  pub Owing-if :
      {A : Type 0} (b : Bool) (m n : M (Server Conn) A)
      → Owing m
      → Owing n
      → Owing (if b then m else n)
  Owing-if true m n h k = h
  Owing-if false m n h k = k

  pub Owing-from :
      {A B : Type 0} (x : Option A) (m : M (Server Conn) B) (f : A → M (Server Conn) B)
      → Owing m
      → ((a : A) → Owing (f a))
      → Owing (from x m f)
  unfolding from
  Owing-from none m f h k = h
  Owing-from (some a) m f h k = k a

  pub Answering-send_response :
      (fields : List (String × Field)) → Answering {Conn = Conn} (send_response fields)
  Answering-send_response fields = record { at = λ s. (_, refl) }

  pub Answering-send_error :
      (code : ℤ) (message : String) → Answering {Conn = Conn} (send_error code message)
  Answering-send_error code message = record { at = λ s. (_, refl) }

  pub Answering->>= :
      {A : Type 0} (m : M (Server Conn) A) (f : A → M (Server Conn) (Unit {0}))
      → Owing m
      → ((a : A) → Answering (f a))
      → Answering (m >>= f)
  unfolding ◌>>=◌
  Answering->>= m f h k = record { at = λ s. Ends-after (m s).0 s (m s).1 (h.at s) k }

  pub Answering->> : (m n : M (Server Conn) (Unit {0})) → Owing m → Answering n → Answering (m >> n)
  unfolding ◌>>◌
  Answering->> m n h k = record { at = λ s. Ends-after (m s).0 s (m s).1 (h.at s) (λ _. k) }

  pub Answering-if :
      (b : Bool) (m n : M (Server Conn) (Unit {0}))
      → Answering m
      → Answering n
      → Answering (if b then m else n)
  Answering-if true m n h k = h
  Answering-if false m n h k = k

  pub Answering-from :
      {A : Type 0} (x : Option A) (m : M (Server Conn) (Unit {0}))
      (f : A → M (Server Conn) (Unit {0}))
      → Answering m
      → ((a : A) → Answering (f a))
      → Answering (from x m f)
  unfolding from
  Answering-from none m f h k = h
  Answering-from (some a) m f h k = k a

module _ (D : Mysql) where
  pub Silent-run_query : (sql : String) → Silent (run_query D sql)
  Silent-run_query sql = record { at = λ s. refl }

  pub Silent-execute : (sql : String) → Silent (execute D sql)
  Silent-execute sql = record { at = λ s. refl }

  pub Silent-store_result : Silent (store_result D)
  Silent-store_result = record { at = λ s. refl }

  pub Owing-run_query : (sql : String) → Owing (run_query D sql)
  Owing-run_query sql = record { at = λ s. refl }

  pub Owing-execute : (sql : String) → Owing (execute D sql)
  Owing-execute sql = record { at = λ s. refl }

  pub Owing-store_result : Owing (store_result D)
  Owing-store_result = record { at = λ s. refl }

  pub Owing-mysql_error : Owing (mysql_error D)
  Owing-mysql_error = record { at = λ s. refl }

  pub Owing-affected_rows : Owing (affected_rows D)
  Owing-affected_rows = record { at = λ s. refl }

  pub Owing-escape_string : (text : String) → Owing (escape_string D text)
  unfolding escape_string
  Owing-escape_string text = record { at = λ s. refl }

  pub Owing-fail_with :
      {A : Type 0} (code : ℤ) (prefix : String) → Owing (fail_with D {A = A} code prefix)
  unfolding fail_with
  Owing-fail_with code prefix = record { at = λ s. (_, refl) }

  pub Owing-need_connection : (message : String) → Owing (need_connection D message)
  unfolding need_connection
  Owing-need_connection message = record {
    at = λ s. (Owing-unless s.connected _ (Owing-send_error _ message)).at s;
  }

pub ruleset answers = (
  Owing-pure, Owing-or_throw, Owing-or_abort, Owing-send_error, Owing-unless, Owing-when, Owing->>=,
  Owing->>, Owing-for_each, Owing-if, Owing-from, Answering-send_response, Answering-send_error,
  Answering->>=, Answering->>, Answering-if, Answering-from, Owing-run_query, Owing-execute,
  Owing-store_result, Owing-mysql_error, Owing-affected_rows, Owing-escape_string, Owing-fail_with,
  Owing-need_connection, Owing-call, Answering-call, Answering-guarded, Owing-keep_term_start,
  Owing-cached_term_start,
)

pub ruleset silence = (
  Silent-pure, Silent-exit, Silent-or_throw, Silent-or_abort, Silent-unless, Silent->>=, Silent->>,
  Silent-for_each, Silent-from, Silent-run_query, Silent-execute, Silent-store_result,
)
