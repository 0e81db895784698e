-- ===== src/Business/Owed.antt =====
-- What a handler of server/business/BusinessServer.cpp owes while it goes on and how it ends, and the
-- handlers that send nothing.
use qinyunserver.Base.{◌≡◌, refl, subst, ◌∙◌, Bool, true, false, Option, none, some, List, [], ◌∷◌}
use qinyunserver.Business.Monad.{
  M, Step, done, returned, thrown, aborted, or_abort, after, ◌>>=◌, ◌>>◌, pure, exit, or_throw,
  unless, for_each, from, caught, ended,
}
use qinyunserver.Business.Server.{Server, Reply}

-- One more reply was sent.
abbrev pub One : List Reply → List Reply → Type 0
One before later = (reply : Reply) × (later ≡ reply ∷ before)

-- While a handler goes on it has sent nothing; where it returns it has answered once; where an
-- exception leaves it, it has sent nothing.
abbrev pub Owes : {A : Type 0} → Step A → List Reply → List Reply → Type 0
Owes (done a) before later = later ≡ before
Owes returned before later = One before later
Owes thrown before later = later ≡ before
Owes aborted before later = later ≡ before

-- At its end a handler has answered once, or an exception has left it and it has sent nothing.
abbrev pub Ends : Step (Unit {0}) → List Reply → List Reply → Type 0
Ends (done a) before later = One before later
Ends returned before later = One before later
Ends thrown before later = later ≡ before
Ends aborted before later = later ≡ before

pub record Owing {Conn A : Type 0} (m : M (Server Conn) A) : Type 0 where
  pub at : (s : Server Conn) → Owes (m s).0 s.sent (m s).1.sent

-- It sends nothing, however it ends.
pub record Silent {Conn A : Type 0} (m : M (Server Conn) A) : Type 0 where
  pub at : (s : Server Conn) → (m s).1.sent ≡ s.sent

pub record Answering {Conn : Type 0} (m : M (Server Conn) (Unit {0})) : Type 0 where
  pub at : (s : Server Conn) → Ends (m s).0 s.sent (m s).1.sent

pub Owes-after :
    {A : Type 0} {Conn : Type 0} {B : Type 0} {f : A → M (Server Conn) B} (x : Step A)
    (s s₁ : Server Conn)
    → Owes x s.sent s₁.sent
    → ((a : A) → Owing (f a))
    → Owes (after x s₁ f).0 s.sent (after x s₁ f).1.sent
Owes-after {f = f} (done a) s s₁ h k =
    subst (λ l. Owes (f a s₁).0 l (f a s₁).1.sent) h ((k a).at s₁)
Owes-after returned s s₁ h k = h
Owes-after thrown s s₁ h k = h
Owes-after aborted s s₁ h k = h

pub Ends-after :
    {A : Type 0} {Conn : Type 0} {f : A → M (Server Conn) (Unit {0})} (x : Step A)
    (s s₁ : Server Conn)
    → Owes x s.sent s₁.sent
    → ((a : A) → Answering (f a))
    → Ends (after x s₁ f).0 s.sent (after x s₁ f).1.sent
Ends-after {f = f} (done a) s s₁ h k =
    subst (λ l. Ends (f a s₁).0 l (f a s₁).1.sent) h ((k a).at s₁)
Ends-after returned s s₁ h k = h
Ends-after thrown s s₁ h k = h
Ends-after aborted s s₁ h k = h

Silent-after :
    {A : Type 0} {Conn : Type 0} {B : Type 0} {f : A → M (Server Conn) B} (x : Step A)
    (s s₁ : Server Conn)
    → s₁.sent ≡ s.sent
    → ((a : A) → Silent (f a))
    → (after x s₁ f).1.sent ≡ s.sent
Silent-after (done a) s s₁ h k = (k a).at s₁ ∙ h
Silent-after returned s s₁ h k = h
Silent-after thrown s s₁ h k = h
Silent-after aborted s s₁ h k = h

pub Owes-call :
    {Conn : Type 0} (x : Step (Unit {0})) (s s₁ : Server Conn)
    → s₁.sent ≡ s.sent
    → Owes (ended (x, s₁)).0 s.sent (ended (x, s₁)).1.sent
Owes-call (done a) s s₁ h = h
Owes-call returned s s₁ h = h
Owes-call thrown s s₁ h = h
Owes-call aborted s s₁ h = h

pub Ends-call :
    {Conn : Type 0} (x : Step (Unit {0})) (s s₁ : Server Conn)
    → Ends x s.sent s₁.sent
    → Ends (ended (x, s₁)).0 s.sent (ended (x, s₁)).1.sent
Ends-call (done a) s s₁ h = h
Ends-call returned s s₁ h = h
Ends-call thrown s s₁ h = h
Ends-call aborted s s₁ h = h

pub Ends-caught :
    {Conn : Type 0} {k : M (Server Conn) (Unit {0})} (x : Step (Unit {0})) (s s₁ : Server Conn)
    → Ends x s.sent s₁.sent
    → Answering k
    → Ends (caught (x, s₁) k).0 s.sent (caught (x, s₁) k).1.sent
Ends-caught (done a) s s₁ h c = h
Ends-caught returned s s₁ h c = h
Ends-caught aborted s s₁ h c = h
Ends-caught {k = k} thrown s s₁ h c = subst (λ l. Ends (k s₁).0 l (k s₁).1.sent) h (c.at s₁)

module _ {Conn : Type 0} where
  pub Silent-pure : {A : Type 0} (a : A) → Silent {Conn = Conn} (pure a)
  Silent-pure a = record { at = λ s. refl }

  pub Silent-exit : {A : Type 0} → Silent {Conn = Conn} {A = A} exit
  Silent-exit = record { at = λ s. refl }

  pub Silent-or_throw : {A : Type 0} (x : Option A) → Silent {Conn = Conn} (or_throw x)
  unfolding or_throw
  Silent-or_throw none = record { at = λ s. refl }
  Silent-or_throw (some a) = record { at = λ s. refl }

  pub Silent-or_abort : {A : Type 0} (x : Option A) → Silent {Conn = Conn} (or_abort x)
  unfolding or_abort
  Silent-or_abort none = record { at = λ s. refl }
  Silent-or_abort (some a) = record { at = λ s. refl }

  pub Silent-unless : (b : Bool) (m : M (Server Conn) (Unit {0})) → Silent m → Silent (unless b m)
  unfolding unless
  Silent-unless true m h = record { at = λ s. refl }
  Silent-unless false m h = record { at = λ s. h.at s }

  pub Silent->>= :
      {A B : Type 0} (m : M (Server Conn) A) (f : A → M (Server Conn) B)
      → Silent m
      → ((a : A) → Silent (f a))
      → Silent (m >>= f)
  unfolding ◌>>=◌
  Silent->>= m f h k = record { at = λ s. Silent-after (m s).0 s (m s).1 (h.at s) k }

  pub Silent->> :
      {B : Type 0} (m : M (Server Conn) (Unit {0})) (n : M (Server Conn) B)
      → Silent m
      → Silent n
      → Silent (m >> n)
  unfolding ◌>>◌
  Silent->> m n h k = record { at = λ s. Silent-after (m s).0 s (m s).1 (h.at s) (λ _. k) }

  pub Silent-for_each :
      {A : Type 0} (as' : List A) (body : A → M (Server Conn) (Unit {0}))
      → ((a : A) → Silent (body a))
      → Silent (for_each as' body)
  unfolding for_each
  Silent-for_each [] body h = record { at = λ s. refl }
  Silent-for_each (a ∷ as') body h = record {
    at = λ s.
        Silent-after (body a s).0 s (body a s).1 ((h a).at s) (λ _. Silent-for_each as' body h);
  }

  pub Silent-from :
      {A B : Type 0} (x : Option A) (m : M (Server Conn) B) (f : A → M (Server Conn) B)
      → Silent m
      → ((a : A) → Silent (f a))
      → Silent (from x m f)
  unfolding from
  Silent-from none m f h k = h
  Silent-from (some a) m f h k = k a
