-- ===== src/Business/Monad.antt =====
-- The control flow of a handler of server/business/BusinessServer.cpp: it goes on with a value, it
-- returns early, an exception leaves it, or a failed assertion ends the process. What it changes stays changed in each case.
use qinyunserver.Base.{List, [], ◌∷◌, Option, none, some, Bool, true, false}

pub data Step (A : Type 0) : Type 0 where
  done : A → Step A
  returned : Step A
  thrown : Step A
  aborted : Step A

abbrev pub M : Type 0 → Type 0 → Type 0
M S A = S → Step A × S

abbrev pub after : {S A B : Type 0} → Step A → S → (A → M S B) → Step B × S
after (done a) s f = f a s
after returned s f = (returned, s)
after thrown s f = (thrown, s)
after aborted s f = (aborted, s)

infixl 5 ◌>>=◌ ◌>>◌
unfoldable pub ◌>>=◌ : {S A B : Type 0} → M S A → (A → M S B) → M S B
◌>>=◌ m f s = after (m s).0 (m s).1 f

unfoldable pub ◌>>◌ : {S B : Type 0} → M S (Unit {0}) → M S B → M S B
◌>>◌ m k s = after (m s).0 (m s).1 (λ _. k)

abbrev pub pure : {S A : Type 0} → A → M S A
pure a s = (done a, s)

abbrev pub exit : {S A : Type 0} → M S A
exit s = (returned, s)

abbrev pub throw : {S A : Type 0} → M S A
throw s = (thrown, s)

-- A value that a library call may throw for.
unfoldable pub or_throw : {S A : Type 0} → Option A → M S A
or_throw none s = (thrown, s)
or_throw (some a) s = (done a, s)

-- A value that the library asserts to be there: a failed assertion ends the process, and no one catches
-- it.
unfoldable pub or_abort : {S A : Type 0} → Option A → M S A
or_abort none s = (aborted, s)
or_abort (some a) s = (done a, s)

unfoldable pub unless : {S : Type 0} → Bool → M S (Unit {0}) → M S (Unit {0})
unless true m s = (done tt, s)
unless false m s = m s

unfoldable pub when : {S : Type 0} → Bool → M S (Unit {0}) → M S (Unit {0})
when true m s = m s
when false m s = (done tt, s)

-- A loop over a sequence.
unfoldable pub for_each : {S A : Type 0} → List A → (A → M S (Unit {0})) → M S (Unit {0})
for_each [] body s = (done tt, s)
for_each (a ∷ as') body s = after (body a s).0 (body a s).1 (λ _. for_each as' body)

-- A value that is there, or what is done where it is not.
unfoldable pub from : {S A B : Type 0} → Option A → M S B → (A → M S B) → M S B
from none m f = m
from (some a) m f = f a

abbrev pub caught : {S A : Type 0} → Step A × S → M S A → Step A × S
caught (done a, s) k = (done a, s)
caught (returned, s) k = (returned, s)
caught (thrown, s) k = k s
caught (aborted, s) k = (aborted, s)

-- try and catch
unfoldable pub guarded : {S A : Type 0} → M S A → M S A → M S A
guarded m k s = caught (m s) k

abbrev pub ended : {S : Type 0} → Step (Unit {0}) × S → Step (Unit {0}) × S
ended (done a, s) = (done a, s)
ended (returned, s) = (done tt, s)
ended (thrown, s) = (thrown, s)
ended (aborted, s) = (aborted, s)

-- A call of a function that returns nothing: its early return ends it alone.
unfoldable pub call : {S : Type 0} → M S (Unit {0}) → M S (Unit {0})
call m s = ended (m s)
