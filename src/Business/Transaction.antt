-- ===== src/Business/Transaction.antt =====
-- The transactions of the handlers of server/business/BusinessServer.cpp: what becomes of the statements
-- between START TRANSACTION and COMMIT or ROLLBACK.
use Prim.Native.String.{String}
use qinyunserver.Base.{
  ◌≡◌, refl, sym, ap, ◌∙◌, Bool, true, false, Option, none, some, List, [], ◌∷◌, ◌++◌, append_assoc,
  All, Bool-cases, inl, inr,
}
use qinyunserver.Base.Int.{ℤ, minus}
use qinyunserver.Business.Monad.{
  M, Step, done, returned, thrown, after, ◌>>=◌, ◌>>◌, for_each, unless, when, or_throw,
}
use qinyunserver.Business.Interface.{Mysql}
use qinyunserver.Business.Server.{
  Server, Field, error_reply, ok_reply, send_error, fail_with, run_query, execute, need_connection,
  send_response,
}

-- The statement succeeded.
abbrev pub Succeeded : String × Bool → Type 0
Succeeded e = e.1 ≡ true

All-append :
    (xs ys : List (String × Bool)) → All Succeeded xs → All Succeeded ys → All Succeeded (xs ++ ys)
All-append [] ys hx hy = hy
All-append (x ∷ xs) ys hx hy = (hx.0, All-append xs ys hx.1 hy)

-- What the statements of a transaction say, and those statements, the last one first in both.
abbrev pub Kinds : Type 1
Kinds = List (String → Type 0)

abbrev pub Matches : Kinds → List (String × Bool) → Type 0
Matches [] [] = Unit {0}
Matches [] (e ∷ es) = ⊥
Matches (k ∷ ks) [] = ⊥
Matches (k ∷ ks) (e ∷ es) = k e.0 × Matches ks es

-- One statement for each element, the last one first.
abbrev pub backward : {A : Type 0} → (A → String → Type 0) → List A → Kinds
backward kind [] = []
backward kind (a ∷ as') = backward kind as' ++ kind a ∷ []

Matches-append :
    (ks ls : Kinds) (es fs : List (String × Bool))
    → Matches ks es
    → Matches ls fs
    → Matches (ks ++ ls) (es ++ fs)
Matches-append [] ls [] fs h k = k
Matches-append [] ls (e ∷ es) fs h k = absurd h
Matches-append (x ∷ ks) ls [] fs h k = absurd h
Matches-append (x ∷ ks) ls (e ∷ es) fs h k = (h.0, Matches-append ks ls es fs h.1 k)

module _ {Conn : Type 0} where
  -- A part of a transaction from the state `s`: it gives statements of the kinds `n` to the database,
  -- one of each, all of which succeed, or stops at the first that fails, takes back all and sends one error, or an exception
  -- leaves it. Nothing else is sent. `v` is its value where it goes on.
  pub data Piece {A : Type 0} (v : A) (n : Kinds) (s : Server Conn) (r : Step A × Server Conn)
      : Type 0 where
    went_on :
        (batch : List (String × Bool))
        → r.0 ≡ done v
        → r.1.log ≡ batch ++ s.log
        → All Succeeded batch
        → Matches n batch
        → r.1.sent ≡ s.sent
        → Piece v n s r
    gave_up :
        (batch : List (String × Bool)) (sql : String) (back : Bool) (code : ℤ) (message : String)
        → r.0 ≡ returned
        → r.1.log ≡ ("ROLLBACK;", back) ∷ (sql, false) ∷ batch ++ s.log
        → All Succeeded batch
        → r.1.sent ≡ error_reply code message ∷ s.sent
        → Piece v n s r
    threw : r.0 ≡ thrown → r.1.sent ≡ s.sent → Piece v n s r

  -- A piece behind a piece that went on.
  pub Piece-after :
      {A : Type 0} {v : A} {n : Kinds} (k : Kinds) (s : Server Conn) {s₁ : Server Conn}
      {r : Step A × Server Conn} (batch : List (String × Bool))
      → s₁.log ≡ batch ++ s.log
      → All Succeeded batch
      → Matches k batch
      → s₁.sent ≡ s.sent
      → Piece v n s₁ r
      → Piece v (n ++ k) s r
  Piece-after {n = n} ks s batch e h k q (went_on batch' o e' h' k' q') =
      went_on (batch' ++ batch) o (e' ∙ ap (λ l. batch' ++ l) e ∙ sym (append_assoc batch' batch _))
        (All-append batch' batch h' h) (Matches-append n ks batch' batch k' k) (q' ∙ q)
  Piece-after ks s batch e h k q (gave_up batch' sql back code message o e' h' q') =
      gave_up (batch' ++ batch) sql back code message o
        (e'
          ∙ ap (λ l. ("ROLLBACK;", back) ∷ (sql, false) ∷ l)
              (ap (λ l. batch' ++ l) e ∙ sym (append_assoc batch' batch _)))
        (All-append batch' batch h' h) (q' ∙ ap (λ l. error_reply code message ∷ l) q)
  Piece-after ks s batch e h k q (threw o q') = threw o (q' ∙ q)

  -- A loop whose body gives one statement for each element.
  pub for_each-Piece :
      {A : Type 0} (kind : A → String → Type 0) (body : A → M (Server Conn) (Unit {0}))
      → ((a : A) (s : Server Conn) → Piece tt (kind a ∷ []) s (body a s))
      → (as' : List A) (s : Server Conn) → Piece tt (backward kind as') s (for_each as' body s)
  unfolding for_each
  for_each-Piece kind body h [] s = went_on [] refl refl tt tt refl
  for_each-Piece kind body h (a ∷ as') s = elim (h a s) [
    | went_on batch o e k l q ↦
        rw o
          (Piece-after (kind a ∷ []) s batch e k l q (for_each-Piece kind body h as' (body a s).1))
    | gave_up batch sql back code message o e k q ↦
        rw o (gave_up batch sql back code message refl e k q)
    | threw o q ↦ rw o (threw refl q)
  ]

  -- A handler that works in a transaction: it gives START TRANSACTION, one statement of each of the kinds
  -- `n`, in order, which succeed, and COMMIT, and answers ok; or the last statement before ROLLBACK failed, and it answers an error; or it
  -- answers an error and gives no statement at all; or an exception leaves it with nothing answered.
  pub data Transaction (n : Kinds) (s : Server Conn) (r : Step (Unit {0}) × Server Conn)
      : Type 0 where
    committed :
        (batch : List (String × Bool)) (start end : Bool) (fields : List (String × Field))
        → r.0 ≡ done tt
        → r.1.log ≡ ("COMMIT;", end) ∷ batch ++ ("START TRANSACTION;", start) ∷ s.log
        → All Succeeded batch
        → Matches n batch
        → r.1.sent ≡ ok_reply fields ∷ s.sent
        → Transaction n s r
    rolled_back :
        (batch : List (String × Bool)) (sql : String) (start back : Bool) (code : ℤ)
        (message : String)
        → r.0 ≡ returned
        → r.1.log
          ≡ ("ROLLBACK;", back) ∷ (sql, false) ∷ batch ++ ("START TRANSACTION;", start) ∷ s.log
        → All Succeeded batch
        → r.1.sent ≡ error_reply code message ∷ s.sent
        → Transaction n s r
    refused :
        (code : ℤ) (message : String)
        → r.0 ≡ returned
        → r.1.log ≡ s.log
        → r.1.sent ≡ error_reply code message ∷ s.sent
        → Transaction n s r
    left : r.0 ≡ thrown → r.1.sent ≡ s.sent → Transaction n s r

  -- Two pieces, one behind the other.
  pub after-Piece :
      {A B : Type 0} {v : A} {w : B} {m n : Kinds} (s : Server Conn) {r : Step A × Server Conn}
      (f : A → M (Server Conn) B)
      → Piece v m s r
      → ((s₁ : Server Conn) → Piece w n s₁ (f v s₁))
      → Piece w (n ++ m) s (after r.0 r.1 f)
  after-Piece {m = m} s {r = r} f (went_on batch o g h l q) rest =
      rw o (Piece-after m s batch g h l q (rest r.1))
  after-Piece s f (gave_up batch sql back code message o g h q) rest =
      rw o (gave_up batch sql back code message refl g h q)
  after-Piece s f (threw o q) rest = rw o (threw refl q)

-- A piece behind START TRANSACTION and before COMMIT and the answer is a transaction.
pub Piece-Transaction :
    (D : Mysql) {A : Type 0} {v : A} {n : Kinds} (s s₁ : Server D.Conn) (r : Step A × Server D.Conn)
    (start : Bool) (fields : A → List (String × Field))
    → s₁.log ≡ ("START TRANSACTION;", start) ∷ s.log
    → s₁.sent ≡ s.sent
    → Piece v n s₁ r
    → Transaction n s (after r.0 r.1 (λ a. execute D "COMMIT;" >> send_response (fields a)))
unfolding ◌>>◌
Piece-Transaction D {v = v} s s₁ r start fields g p (went_on batch o e h l q) = rw o (
    committed batch start (D.query "COMMIT;" r.1.conn).0 (fields v) refl
      (ap (λ rest. ("COMMIT;", (D.query "COMMIT;" r.1.conn).0) ∷ rest)
        (e ∙ ap (λ rest. batch ++ rest) g))
      h l (ap (λ rest. ok_reply (fields v) ∷ rest) (q ∙ p)))
Piece-Transaction D s s₁ r start fields g p (gave_up batch sql back code message o e h q) = rw o (
    rolled_back batch sql start back code message refl
      (e ∙ ap (λ rest. ("ROLLBACK;", back) ∷ (sql, false) ∷ batch ++ rest) g) h
      (q ∙ ap (λ rest. error_reply code message ∷ rest) p))
Piece-Transaction D s s₁ r start fields g p (threw o q) = rw o (left refl (q ∙ p))

-- A statement, and where it fails ROLLBACK and an error, with a text of its own or with what the
-- database says.
pub attempt-Piece :
    (D : Mysql) (kind : String → Type 0) (sql : String) (code : ℤ) (message : String)
    (s : Server D.Conn)
    → kind sql
    → Piece tt (kind ∷ []) s (
        (run_query D sql >>= λ fine. unless fine (execute D "ROLLBACK;" >> send_error code message))
          s)
      × Piece tt (kind ∷ []) s (
          (run_query D sql >>= λ fine.
          unless fine (execute D "ROLLBACK;" >> fail_with D code message))
            s)
unfolding ◌>>=◌ ◌>>◌ unless fail_with
attempt-Piece D kind sql code message s k = elim (Bool-cases (D.query sql s.conn).0) [
  | inl fine ↦ rw fine (
    went_on ((sql, true) ∷ []) refl refl (refl, tt) (k, tt) refl,
    went_on ((sql, true) ∷ []) refl refl (refl, tt) (k, tt) refl,
  )
  | inr bad ↦
      rw bad
        (gave_up [] sql _ code message refl refl tt refl, gave_up [] sql _ code _ refl refl tt refl)
]

-- From every state the handler works in a transaction.
pub record Transactional {Conn : Type 0} (n : Kinds) (m : M (Server Conn) (Unit {0})) : Type 0 where
  pub run : (s : Server Conn) → Transaction n s (m s)

-- What stands in front of a transaction: guards that refuse, and reads that may throw.
module _ {Conn : Type 0} {n : Kinds} where
  pub unless-Transactional :
      (code : ℤ) (message : String) {rest : M (Server Conn) (Unit {0})} (good : Bool)
      → Transactional n rest
      → Transactional n (unless good (send_error code message) >> rest)
  unfolding ◌>>◌ unless
  unless-Transactional code message true h = record { run = λ s. h.run s }
  unless-Transactional code message false h = record {
    run = λ s. refused code message refl refl refl;
  }

  pub when-Transactional :
      (code : ℤ) (message : String) {rest : M (Server Conn) (Unit {0})} (bad : Bool)
      → Transactional n rest
      → Transactional n (when bad (send_error code message) >> rest)
  unfolding ◌>>◌ when
  when-Transactional code message false h = record { run = λ s. h.run s }
  when-Transactional code message true h = record { run = λ s. refused code message refl refl refl }

  pub or_throw-Transactional :
      {A : Type 0} (x : Option A) {f : A → M (Server Conn) (Unit {0})}
      → ((a : A) → x ≡ some a → Transactional n (f a))
      → Transactional n (or_throw x >>= f)
  unfolding ◌>>=◌ or_throw
  or_throw-Transactional none h = record { run = λ s. left refl refl }
  or_throw-Transactional (some a) h = record { run = λ s. (h a refl).run s }

module _ (D : Mysql) {n : Kinds} where
  pub need_connection-Transactional :
      (message : String) {rest : M (Server D.Conn) (Unit {0})}
      → Transactional n rest
      → Transactional n (need_connection D message >> rest)
  unfolding ◌>>◌ need_connection
  need_connection-Transactional message {rest = rest} h = record {
    run = λ s. (unless-Transactional (minus 500) message {rest = rest} s.connected h).run s;
  }

  -- START TRANSACTION, a piece, COMMIT and the answer.
  pub transact-Transactional :
      {A : Type 0} {v : A} (piece : M (Server D.Conn) A) (fields : A → List (String × Field))
      → ((s : Server D.Conn) → Piece v n s (piece s))
      → Transactional n (
          execute D "START TRANSACTION;"
          >> (piece >>= λ a. execute D "COMMIT;" >> send_response (fields a)))
  unfolding ◌>>=◌ ◌>>◌
  transact-Transactional piece fields h = record {
    run = λ s.
        let s₁ = (execute D "START TRANSACTION;" s).1 in
        Piece-Transaction D s s₁ (piece s₁) (D.query "START TRANSACTION;" s.conn).0 fields refl refl
          (h s₁);
  }
