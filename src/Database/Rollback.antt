-- ===== src/Database/Rollback.antt =====
-- database.rs: `rollback` against the tables that `begin_transaction` saw.
use dbobj.Base.{◌≡◌, refl, ◌∙◌, [], Text}
use dbobj.Core.Id.{text_key}
use dbobj.Database.{Database, begin_transaction, rollback, get_table}
use dbobj.Map
use dbobj.Map.{IsMap, get-collect, collect-IsMap}

module _ {F P W : Type 0} (db : Database F P W) (is_map : IsMap db.tables) where
  -- When the database had at most one table for a name as the transaction began, `rollback` makes
  -- every table of that time the one of that time again; a name that had no table then keeps what
  -- it has, so a table created meanwhile stays; and the version log and the write-ahead log keep
  -- what was logged meanwhile.
  pub get_table-rollback :
      (db' : Database F P W) (name : Text)
      → (get_table name (rollback (begin_transaction db) db')
          ≡ Map.first (get_table name db) (get_table name db'))
        × ((rollback (begin_transaction db) db').version_log ≡ db'.version_log)
        × ((rollback (begin_transaction db) db').wal ≡ db'.wal)
  unfolding Map.get get_table rollback begin_transaction
  get_table-rollback db' name = (
    get-collect db'.tables (Map.collect [] db.tables) name (collect-IsMap [] db.tables tt)
        ∙ rw (get-collect [] db.tables name is_map, Map.first-none (Map.get name db.tables)) refl,
    refl,
    refl,
  )
