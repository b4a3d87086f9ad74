-- ===== src/Database/Recover.antt =====
-- database.rs: `recover_from_wal`.
use dbobj.Base.{ℕ, Option, none, some, List, [], ◌∷◌, Text, Res}
use dbobj.Core.Float.{Float}
use dbobj.Core.Id.{RowId}
use dbobj.Core.Pool.{Interner}
use dbobj.Database.{Database, Journal, ChangeType, WalEntry}
use dbobj.Database.Write.{insert_row, update_row, delete_row}
use dbobj.Table.{RowData, TableError}

module _ {F : Type 0} where
  unfoldable pub logged_entries : Option (List (WalEntry F)) → List (WalEntry F)
  logged_entries none = []
  logged_entries (some entries) = entries

module _ {F P W : Type 0} ⦃fl : Float F⦄ ⦃it : Interner P⦄ ⦃jo : Journal F W⦄ where
  -- `let _ = …`: an error of an entry is dropped, a panic is not
  abbrev pub dropped {ℓ} :
      {A : Type ℓ} → Database F P W × Res TableError A → Option (Database F P W)
  dropped (db, Res.ok a) = some db
  dropped (db, Res.err e) = some db
  dropped (db, Res.panic) = none

  -- `none` is a panic
  unfoldable pub replay_change :
      ℕ → Text → RowId → ChangeType → Option (RowData F) → Database F P W → Option (Database F P W)
  unfolding insert_row update_row delete_row
  replay_change now name id ChangeType.insert (some row_data) db =
      dropped (insert_row now name row_data (some id) db)
  replay_change now name id ChangeType.update (some row_data) db =
      dropped (update_row now name id row_data db)
  replay_change now name id ChangeType.delete row_data db = dropped (delete_row now name id db)
  replay_change now name id _ _ db = some db

  unfoldable pub replay : ℕ → List (WalEntry F) → Database F P W → Option (Database F P W)
  unfolding replay_change
  replay now [] db = some db
  replay now (e ∷ entries) db =
      elim (replay_change now e.table_name e.row_id e.change_type e.row_data db) [
        | none ↦ none
        | some db' ↦ replay now entries db'
      ]

  -- The methods that it calls append to the log that it reads.
  unfoldable pub recover_from_wal : ℕ → Database F P W → Option (Database F P W)
  unfolding replay logged_entries
  recover_from_wal now db = elim db.wal [
    | none ↦ some db
    | some w ↦ replay now (logged_entries (jo.read_all w)) db
  ]
