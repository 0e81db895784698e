-- ===== src/Business/Schedule/Covers.antt =====
-- What `rebuildUserSchedules` of server/business/BusinessServer.cpp writes for a day of a week.
use Prim.Native.String.{String, ◌++◌}
use qinyunserver.Base.{
  ℕ, ◌<◌, ◌≡◌, ◌⊎◌, Bool, true, false, ◌||◌, List, [], ◌∷◌, ◌++◌ as append, ◌==◌,
}
use qinyunserver.Base.Int.{ℤ}
use qinyunserver.Business.Monad.{Step, done}
use qinyunserver.Business.Text.{int_to_string, to_string}
use qinyunserver.Business.Bits.{test_bit}
use qinyunserver.Business.Interface.{Mysql}
use qinyunserver.Business.Server.{Server}
use qinyunserver.Business.Schedule.{CourseRule, days}
use qinyunserver.Business.Schedule.Bits.{is_taken}

-- One of the statements of the log is of a kind.
abbrev pub Some : (String → Type 0) → List (String × Bool) → Type 0
Some P [] = ⊥
Some P (e ∷ es) = P e.0 ⊎ Some P es

-- The numbers of a sequence.
abbrev listed : ℕ → List ℕ → Bool
listed n [] = false
listed n (x ∷ xs) = n == x || listed n xs

-- A property of some statements that more of them do not take away.
record Keeps (K : ℕ → List (String × Bool) → Type 0) : Type 0 where
  front : (n : ℕ) (xs ys : List (String × Bool)) → K n xs → K n (append xs ys)
  back : (n : ℕ) (xs ys : List (String × Bool)) → K n ys → K n (append xs ys)

-- A part that goes on and whose statements have the property for some numbers.
record Wrote {Conn : Type 0} (K : ℕ → List (String × Bool) → Type 0) (want : ℕ → Bool)
    (s : Server Conn) (r : Step (Unit {0}) × Server Conn) : Type 0 where
  batch : List (String × Bool)
  goes_on : r.0 ≡ done tt
  logged : r.1.log ≡ append batch s.log
  given : (n : ℕ) → want n ≡ true → K n batch

module _ (D : Mysql) (user_id : ℤ) (rules : List CourseRule) where
  -- The statement that stores a mask for a day of a week of the user, a mask whose bits are the periods
  -- at which one of the courses takes place then.
  pub data Stores (week day : ℕ) (sql : String) : Type 0 where
    stores :
        (mask : ℕ)
        → ((i : ℕ) → i < 32 → test_bit i mask ≡ is_taken i week day rules)
        → sql
          ≡ "INSERT INTO schedules (user_id, week_number, day_of_week, day_bitmask) "
            ++ "VALUES ("
            ++ int_to_string user_id
            ++ ", "
            ++ to_string week
            ++ ", "
            ++ to_string day
            ++ ", "
            ++ to_string mask
            ++ ") "
            ++ "ON DUPLICATE KEY UPDATE day_bitmask = "
            ++ to_string mask
            ++ ";"
        → Stores week day sql

  -- All the days of a week are stored.
  abbrev Stored : ℕ → List (String × Bool) → Type 0
  Stored week batch = (d : ℕ) → listed d (days D) ≡ true → Some (Stores week d) batch
