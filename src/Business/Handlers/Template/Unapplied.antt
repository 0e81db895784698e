-- ===== src/Business/Handlers/Template/Unapplied.antt =====
-- What `handleBatchApplyClassTemplate` of server/business/BusinessServer.cpp gives to the database.
use Prim.Native.String.{String}
use qinyunserver.Base.{ℕ, List, [], ◌∷◌, ◌≡◌, ◌++◌, Bool, All}
use qinyunserver.Base.Int.{ℤ}
use qinyunserver.Business.Monad.{for_each}
use qinyunserver.Business.Interface.{JsonLib, Mysql, Row}
use qinyunserver.Business.Server.{Server}
use qinyunserver.Business.Statements.{Giving, Giving-pure, Giving-for_each, statements}
use qinyunserver.Business.Handlers.Spread.{
  class_template_sql, class_users_sql, weekly_masks, apply_rules, handle_batch_apply_class_template,
}

-- The statements of a transaction that reads the courses and the users of a class.
pub data Reads : String → Type 0 where
  begins : Reads "START TRANSACTION;"
  commits : Reads "COMMIT;"
  rolls_back : Reads "ROLLBACK;"
  reads_courses : (class_name : String) → Reads (class_template_sql class_name)
  reads_users : (class_name : String) → Reads (class_users_sql class_name)

module _ (J : JsonLib) (D : Mysql) where
  weekly_masks-Giving : (rs : List Row) (masks : List ℕ) → Giving Reads (weekly_masks J D rs masks)
  unfolding weekly_masks
  weekly_masks-Giving [] masks = search statements
  weekly_masks-Giving (row ∷ rs) masks = search (statements, weekly_masks-Giving rs) depth 40

  nothing-Giving : (user_ids : List ℤ) → Giving Reads (apply_rules J D [] user_ids)
  unfolding apply_rules for_each
  nothing-Giving user_ids = Giving-for_each user_ids _ (λ uid. Giving-pure tt)

  whole : (json : J.Value) → Giving Reads (handle_batch_apply_class_template J D json)
  unfolding handle_batch_apply_class_template
  whole json =
      search
        (
          statements, begins, commits, rolls_back, reads_courses, reads_users, weekly_masks-Giving,
          nothing-Giving,
        )
        depth 60

  -- Applying the template of a class to its users changes nothing: whatever the request and the database
  -- say, all the statements that it gives open or end the transaction, or read the courses or the users of a
  -- class.
  pub handle_batch_apply_class_template-Reads :
      (json : J.Value) (s : Server D.Conn)
      → (batch : List (String × Bool)) × ((handle_batch_apply_class_template J D json s).1.log
          ≡ batch ++ s.log)
        × All (λ e. Reads e.0) batch
  handle_batch_apply_class_template-Reads json s = (whole json).at s
