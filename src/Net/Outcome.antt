-- ===== src/Net/Outcome.antt =====
-- What holds of the result of a step of the code under net/ that may fail an assertion.
use qinyunserver.Base.{Bool, true, false, Option, none, some, ◌≡◌, refl, if◌then◌else◌}
use qinyunserver.Net.Buffer.{◌>>=◌}

-- What holds of the result of a step, if there is one.
pub data Post {A : Type 0} (P : A → Type 0) : Option A → Type 0 where
  nothing : Post P none
  gives : {a : A} → P a → Post P (some a)

pub Post->>= :
    {A B : Type 0} {P : A → Type 0} {Q : B → Type 0} (m : Option A) {f : A → Option B}
    → Post P m
    → ((a : A) → P a → Post Q (f a))
    → Post Q (m >>= f)
Post->>= _ nothing k = nothing
Post->>= _ (gives {a} h) k = k a h

pub Post-some : {A : Type 0} {P : A → Type 0} {a : A} → Post P (some a) → P a
Post-some (gives h) = h

pub Post-if :
    {A : Type 0} {P : A → Type 0} (b : Bool) {m k : Option A}
    → Post P m
    → Post P k
    → Post P (if b then m else k)
Post-if true h h' = h
Post-if false h h' = h'

pub any : {A : Type 0} (m : Option A) → Post (λ _. Unit {0}) m
any none = nothing
any (some a) = gives tt

-- The same, with the result itself.
pub kept : {A : Type 0} (m : Option A) → Post (λ a. m ≡ some a) m
kept none = nothing
kept (some a) = gives refl
