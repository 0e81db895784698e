-- ===== src/Tests/Starts.antt =====
-- Runs of the start of server/business/BusinessServer.cpp.
use Prim.Native.String.{String}
use qinyunserver.Base.{◌≡◌, none, some, List, [], ◌∷◌, map, arith}
use qinyunserver.Business.Start.{load_db_config}
use qinyunserver.Business.Start.Config.{line_of, load_db_config_lem}

abbrev settings : List (String × String)
settings = ("DB_HOST", "localhost") ∷ ("DB_PASS", "a=b") ∷ ("DB_HOST", "127.0.0.1") ∷ []

load_db_config_example :
    (load_db_config (some (map line_of settings)) "DB_HOST" ≡ "127.0.0.1")
    × (load_db_config none "DB_HOST" ≡ "")
load_db_config_example = load_db_config_lem settings "DB_HOST" (omega arith)
