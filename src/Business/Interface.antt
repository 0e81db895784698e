-- ===== src/Business/Interface.antt =====
-- What server/business/BusinessServer.cpp takes from libraries: nlohmann::json and the C API of MySQL.
use Prim.Native.String.{String}
use qinyunserver.Base.{ℕ, Bool, Option, List}
use qinyunserver.Base.Int.{ℤ}

-- JSON values. `none` is an exception (json::parse_error, json::type_error) or the failed assertion of
-- `operator[]` on a missing field.
pub record JsonLib : Type 1 where
  pub Value : Type 0
  pub Double : Type 0
  pub parse : List ℕ → Option Value
  pub contains : Value → String → Bool
  pub field : Value → String → Option Value
  pub is_array : Value → Bool
  pub is_string : Value → Bool
  pub is_null : Value → Bool
  pub elements : Value → List Value
  pub get_int : Value → Option ℤ
  pub get_u32 : Value → Option ℕ
  pub get_double : Value → Option Double
  pub get_string : Value → Option String
  pub value_int : Value → String → ℤ → Option ℤ
  pub value_u32 : Value → String → ℕ → Option ℕ
  pub value_bool : Value → String → Bool → Option Bool
  pub value_string : Value → String → String → Option String
  pub show_double : Double → String
  pub one : Double
  pub value_double : Value → String → Double → Option Double
  pub show_tenths : Double → String
  -- Do std::stod and std::stof read a number from the text?
  pub reads_double : String → Bool
  pub reads_float : String → Bool
  -- what() of the exception that the handling of a request ends with.
  pub what : Value → String

-- The calendar of the C library: the seconds that mktime gives for a date, the date of today, and the two
-- numbers that sscanf reads by "%d:%d", 0 for one that is not there.
pub record Calendar : Type 0 where
  pub seconds : String → ℤ
  pub today : String
  pub scan_time : String → ℤ × ℤ

abbrev pub Row : Type 0
Row = List (Option String)

-- A connection to the database: whether a statement succeeds, the rows of the last result (`none` is a
-- null pointer), the last error, the rows that the last statement changed, and escaping.
pub record Mysql : Type 1 where
  pub Conn : Type 0
  pub query : String → Conn → Bool × Conn
  pub store_result : Conn → Option (List Row)
  pub error : Conn → String
  pub affected_rows : Conn → ℤ
  pub escape : Conn → String → String
