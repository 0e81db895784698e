-- ===== src/Business/Start.antt =====
-- The start of server/business/BusinessServer.cpp: loadDbConfig, and what the constructor of
-- BusinessServer does with the database. The lines of the file are an argument, `none` where it cannot
-- be opened, and so are mysql_real_connect and mysql_set_character_set.
pub mod Config
use Prim.Native.Char.{Char, code}
use Prim.Native.String.{String}
use text.Mathlib.Text.{◌==◌ as str_eq}
use qinyunserver.Base.{ℕ, Bool, true, false, Option, none, some, List, [], ◌∷◌, ◌==◌, if◌then◌else◌}
use qinyunserver.Base.Int.{ℤ, pos}
use qinyunserver.Business.Monad.{M, done, ◌>>=◌, ◌>>◌, pure, or_throw}
use qinyunserver.Business.Interface.{Mysql, Calendar}
use qinyunserver.Business.Server.{Server}
use qinyunserver.Business.Text.{stoi}
use qinyunserver.Business.Handlers.Term.{load_system_config}

-- The std::map of the configuration, as `operator[]` reads it.
abbrev pub Config : Type 0
Config = String → String

abbrev pub set : String → String → Config → Config
set key val cfg k = if str_eq k key then val else cfg k

abbrev pub behind : Char → Option (String × String) → Option (String × String)
behind c none = none
behind c (some (key, val)) = some (String.◌∷◌ c key, val)

-- `line.find('=')` and the two calls of `substr`.
unfoldable pub split_line : String → Option (String × String)
split_line String.[] = none
split_line (String.◌∷◌ c s) =
    let rest = split_line s in if code c == b'=' then some ("", s) else behind c rest

-- The loop over the lines.
unfoldable pub read_lines : List String → Config → Config
read_lines [] cfg = cfg
read_lines (line ∷ lines) cfg = elim (split_line line) [
  | none ↦ read_lines lines cfg
  | some (key, val) ↦ read_lines lines (set key val cfg)
]

unfoldable pub load_db_config : Option (List String) → Config
unfolding read_lines
load_db_config none = λ k. ""
load_db_config (some lines) = read_lines lines (λ k. "")

-- `none` is an exception of std::stoi.
unfoldable pub db_port : Config → Option ℤ
db_port cfg = if str_eq (cfg "DB_PORT") "" then some (pos 3306) else stoi (cfg "DB_PORT")

-- What mysql_real_connect is given.
pub record Login : Type 0 where
  pub host : String
  pub user : String
  pub pass : String
  pub name : String
  pub port : ℤ

module _ (D : Mysql) (T : Calendar) (real_connect : Login → D.Conn → Bool × D.Conn)
    (set_character_set : String → D.Conn → D.Conn) where
  -- The server behind mysql_init, which gives a handle.
  unfoldable pub new_server : D.Conn → Server D.Conn
  new_server handle = record {
    conn = handle;
    connected = true;
    cached_term_start = "";
    log = [];
    sent = [];
  }

  abbrev pub connect : Login → M (Server D.Conn) Bool
  connect login s =
      (done (real_connect login s.conn).0, record s { conn = (real_connect login s.conn).1 })

  abbrev pub use_utf8 : M (Server D.Conn) (Unit {0})
  use_utf8 s = (done tt, record s { conn = set_character_set "utf8mb4" s.conn })

  -- The end of the constructor of BusinessServer.
  unfoldable pub connect_database : Config → M (Server D.Conn) (Unit {0})
  unfolding ◌>>=◌ or_throw
  connect_database cfg = do
    port ← or_throw (db_port cfg)
    fine ← connect (record {
      host = cfg "DB_HOST";
      user = cfg "DB_USER";
      pass = cfg "DB_PASS";
      name = cfg "DB_NAME";
      port = port;
    })
    if fine then (use_utf8 >> load_system_config D T) else pure tt
