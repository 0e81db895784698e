-- ===== src/Business/Handlers/Term.antt =====
-- Handlers of server/business/BusinessServer.cpp on the start of the term, and what is read of it when the
-- server starts.
use Prim.Native.String.{String, ◌++◌}
use qinyunserver.Base.{◌&&◌, Option, none, some, List, [], ◌∷◌}
use qinyunserver.Base.Int.{pos, minus}
use qinyunserver.Business.Monad.{M, done, ◌>>=◌, ◌>>◌, pure, or_throw, unless, when}
use qinyunserver.Business.Interface.{JsonLib, Mysql, Calendar, Row}
use qinyunserver.Business.Server.{
  Server, phrase, number, figure, title, record_of, send_response, send_error, fail_with, run_query,
  store_result, escape_string, string_field, has_string, keep_term_start, cached_term_start,
}
use qinyunserver.Business.Calendar.{get_current_week}

abbrev pub term_select : String
term_select = "SELECT config_value FROM sys_config WHERE config_key = 'term_start_date'"

abbrev pub term_insert : String → String
term_insert default_date =
    "INSERT INTO sys_config (config_key, config_value, updated_at) "
    ++ "VALUES ('term_start_date', '" ++ default_date ++ "', NOW());"

abbrev pub term_update : String → String
term_update escaped_date =
    "INSERT INTO sys_config (config_key, config_value, updated_at) "
    ++ "VALUES ('term_start_date', '" ++ escaped_date ++ "', NOW()) "
    ++ "ON DUPLICATE KEY UPDATE config_value = VALUES(config_value), updated_at = NOW();"

module _ (D : Mysql) (T : Calendar) where
  -- `loadSystemConfig` behind the query: the date that is stored, or today.
  unfoldable pub load_term_start : Option (List Row) → M (Server D.Conn) (Unit {0})
  load_term_start none = pure tt
  load_term_start (some ((x ∷ row) ∷ rows)) = or_throw x >>= keep_term_start
  load_term_start (some ([] ∷ rows)) = or_throw none
  load_term_start (some []) = do
    fine ← run_query D (term_insert T.today)
    when fine (keep_term_start T.today)

  -- `loadSystemConfig`
  unfoldable pub load_system_config : M (Server D.Conn) (Unit {0})
  load_system_config = do
    connected ← (λ s. (done s.connected, s))
    when connected
        (do fine ← run_query D term_select; when fine (store_result D >>= load_term_start))

  module _ (J : JsonLib) where
    -- `handleSetTermStart`
    unfoldable pub handle_set_term_start : J.Value → M (Server D.Conn) (Unit {0})
    handle_set_term_start json = do
      unless (J.contains json "new_date" && has_string J json "new_date")
          (send_error (minus 901) "Missing or invalid new_date parameter")
      new_date ← or_throw (string_field J json "new_date")
      escaped_date ← escape_string D new_date
      fine ← run_query D (term_update escaped_date)
      unless fine (fail_with D (minus 501) "Failed to update term start date: ")
      keep_term_start new_date
      send_response (
          ("status", phrase "ok")
          ∷ ("code", number (pos 0))
          ∷ ("action", phrase "SET_TERM_START")
          ∷ ("message", phrase "学期起始日期已更新")
          ∷ (
            "data",
            record_of (
                ("term_start_date", title new_date)
                ∷ ("current_week", figure (pos (get_current_week T new_date)))
                ∷ []),
          )
          ∷ [])

    -- `handleGetTermStart`
    unfoldable pub handle_get_term_start : J.Value → M (Server D.Conn) (Unit {0})
    handle_get_term_start json = do
      date ← cached_term_start
      send_response (
          ("status", phrase "ok")
          ∷ ("code", number (pos 0))
          ∷ ("action", phrase "GET_TERM_START")
          ∷ (
            "data",
            record_of (
                ("term_start_date", title date)
                ∷ ("current_week", figure (pos (get_current_week T date)))
                ∷ []),
          )
          ∷ [])
