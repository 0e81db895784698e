-- ===== src/Business/Server.antt =====
-- The state of a BusinessServer (server/business/BusinessServer.h), what its handlers do to it, and the
-- helpers that they share.
use Prim.Native.String.{String, ◌++◌}
use text.Mathlib.Text.{◌==◌ as str_eq}
use qinyunserver.Base.{ℕ, Bool, false, not, Option, none, some, List, ◌∷◌, if◌then◌else◌}
use qinyunserver.Base.Int.{ℤ, pos, minus, leb_ℤ}
use qinyunserver.Business.Monad.{M, done, returned, unless}
use qinyunserver.Business.Interface.{JsonLib, Mysql, Row}

-- The data of a reply: a text, an integer, the double that std::stod reads from a text, or the
-- percentage of two counts as a double; arrays of texts and of objects; and objects of all these.
pub data Datum : Type 0 where
  title : String → Datum
  figure : ℤ → Datum
  decimal : String → Datum
  percentage : ℕ → ℕ → Datum

pub data Array : Type 0 where
  names : List String → Array
  rows : List (List (String × Datum)) → Array

pub data Field : Type 0 where
  phrase : String → Field
  number : ℤ → Field
  record_of : List (String × Datum) → Field
  arrays_of : List (String × Datum) → List (String × Array) → Field

-- A reply is an error with its code and message, or the fields of a success.
pub data Reply : Type 0 where
  error_reply : ℤ → String → Reply
  ok_reply : List (String × Field) → Reply

-- The connection, whether there is one, the date kept of the term's start, the statements that were
-- given to the database, with whether they succeeded, and the replies that were sent, the last ones
-- first.
pub record Server (Conn : Type 0) : Type 0 where
  pub conn : Conn
  pub connected : Bool
  pub cached_term_start : String
  pub log : List (String × Bool)
  pub sent : List Reply

-- `RoleLevel`
abbrev pub role_captain : ℤ
role_captain = pos 20

abbrev pub role_minister : ℤ
role_minister = pos 30

module _ {Conn : Type 0} where
  -- `sendResponse`. `dump` throws for a text that is not UTF-8; the texts of a reply are taken to be.
  abbrev pub send_response : List (String × Field) → M (Server Conn) (Unit {0})
  send_response fields s = (done tt, record s { sent = ok_reply fields ∷ s.sent })

  -- `sendError`, and the return behind it.
  abbrev pub send_error : {A : Type 0} → ℤ → String → M (Server Conn) A
  send_error code message s = (returned, record s { sent = error_reply code message ∷ s.sent })

  -- `m_cachedTermStartDate`
  abbrev pub keep_term_start : String → M (Server Conn) (Unit {0})
  keep_term_start date s = (done tt, record s { cached_term_start = date })

  abbrev pub cached_term_start : M (Server Conn) String
  cached_term_start s = (done s.cached_term_start, s)

module _ (D : Mysql) where
  -- mysql_query: does the statement succeed?
  abbrev pub run_query : String → M (Server D.Conn) Bool
  run_query sql s = (
    done (D.query sql s.conn).0,
    record s { conn = (D.query sql s.conn).1; log = (sql, (D.query sql s.conn).0) ∷ s.log },
  )

  -- A statement whose result is not looked at.
  abbrev pub execute : String → M (Server D.Conn) (Unit {0})
  execute sql s = (
    done tt,
    record s { conn = (D.query sql s.conn).1; log = (sql, (D.query sql s.conn).0) ∷ s.log },
  )

  abbrev pub store_result : M (Server D.Conn) (Option (List Row))
  store_result s = (done (D.store_result s.conn), s)

  abbrev pub mysql_error : M (Server D.Conn) String
  mysql_error s = (done (D.error s.conn), s)

  -- `sendError` with what mysql_error says then, and the return behind it.
  unfoldable pub fail_with : {A : Type 0} → ℤ → String → M (Server D.Conn) A
  fail_with code prefix s = send_error code (prefix ++ D.error s.conn) s

  abbrev pub affected_rows : M (Server D.Conn) ℤ
  affected_rows s = (done (D.affected_rows s.conn), s)

  -- `if (!m_mysql)`
  unfoldable pub need_connection : String → M (Server D.Conn) (Unit {0})
  need_connection message s = unless s.connected (send_error (minus 500) message) s

  -- `escapeString`
  unfoldable pub escape_string : String → M (Server D.Conn) String
  escape_string str s = (
    done (if not s.connected then str else if str_eq str "" then str else D.escape s.conn str),
    s,
  )

module _ (J : JsonLib) where
  -- `jsonObj[name].get<int>()` and its kin.
  abbrev pub int_field : J.Value → String → Option ℤ
  int_field v name = elim (J.field v name) [ none ↦ none | some x ↦ J.get_int x ]

  abbrev pub u32_field : J.Value → String → Option ℕ
  u32_field v name = elim (J.field v name) [ none ↦ none | some x ↦ J.get_u32 x ]

  abbrev pub string_field : J.Value → String → Option String
  string_field v name = elim (J.field v name) [ none ↦ none | some x ↦ J.get_string x ]

  abbrev pub has_array : J.Value → String → Bool
  has_array v name = elim (J.field v name) [ none ↦ false | some x ↦ J.is_array x ]

  abbrev pub has_string : J.Value → String → Bool
  has_string v name = elim (J.field v name) [ none ↦ false | some x ↦ J.is_string x ]

  -- `isAuthorized`; `none` is an exception.
  unfoldable pub is_authorized : J.Value → ℤ → Option Bool
  is_authorized v min_role_level =
      if J.contains v "request_user_role"
      then elim (int_field v "request_user_role") [
        | none ↦ none
        | some role ↦ some (leb_ℤ role min_role_level)
      ]
      else some false
