-- ===== src/Tests/Logs.antt =====
-- The database with a journal, and what the tables keep.
use dbobj.Base.{
  ℕ, ◌≡◌, refl, true, Bool, none, some, List, [], ◌∷◌, map, Text, codes, text_beq, ok, err, arith,
  slice,
}
use dbobj.Base.Int.{pos}
use dbobj.Core.Id.{RowId, id_key, text_key}
use dbobj.Core.Value.{Value}
use dbobj.Database.{Database, WalEntry, get_table}
use dbobj.Database.Rows.{RowDeleted, delete_row-RowDeleted, delete_row_missing}
use dbobj.Database.Snapshot.{snapshot, from_snapshot}
use dbobj.Database.Snapshot.Laws.{get-from_snapshot}
use dbobj.Database.Write.{delete_row}
use dbobj.Map
use dbobj.Table.{Row, TableError, Violation}
use dbobj.Table.Archive.{prepare_for_archive, skip_fields, rebuild_from_archive}
use dbobj.Table.Archive.RoundTrip.{get-rebuild_from_archive}
use dbobj.Table.Convert.{resolve_value}
use dbobj.Table.Delete.{delete}
use dbobj.Table.Delete.Indexes.{delete-indexes}
use dbobj.Table.Delete.Methods.{Deleted}
use dbobj.Table.Find.{select, scan}
use dbobj.Table.Find.Select.{select-eq-scan}
use dbobj.Table.Insert.{insert_values}
use dbobj.Table.Insert.RoundTrip.{get-insert_values}
use dbobj.Table.Read.{get, or_else, get_row_by_index}
use dbobj.Tests.Instances.{nat_float, list_interner, list_journal}
use dbobj.Tests.Tables.{
  Sample, two_rows, two_rows-IsValid, mapped_rows, mapped_rows-IsValid, new_values,
}

free_2 : Map.get (RowId.integer 2) two_rows.id_map ≡ none
unfolding Map.get
free_2 = refl

get-insert_values_example :
    (t' : Sample) × (row : Row ℕ) × (insert_values new_values two_rows ≡ (t', ok (RowId.integer 2)))
    × (get (RowId.integer 2) t' ≡ some (some row))
    × (map (resolve_value t'.string_pool) row.values ≡ new_values)
get-insert_values_example =
    get-insert_values two_rows two_rows-IsValid new_values refl (omega arith) free_2 (tt, (tt, tt))

abbrev all_rows : Row ℕ → Bool
all_rows row = true

select-eq-scan_example : select 4 all_rows two_rows ≡ scan all_rows 2 0 two_rows
select-eq-scan_example = select-eq-scan 4 all_rows two_rows

get-rebuild_from_archive_example :
    get (RowId.integer 1) (rebuild_from_archive (skip_fields (prepare_for_archive mapped_rows)))
    ≡ get (RowId.integer 1) mapped_rows
get-rebuild_from_archive_example =
    get-rebuild_from_archive mapped_rows mapped_rows-IsValid.laid (RowId.integer 1)

delete-indexes_example : (delete (RowId.integer 0) two_rows).0.indexes ≡ two_rows.indexes
delete-indexes_example = delete-indexes (RowId.integer 0) two_rows

abbrev Db : Type 0
Db = Database ℕ (List Text) (List (WalEntry ℕ))

abbrev logged : Db
logged = record {
  name = codes "db";
  tables = (codes "t", two_rows) ∷ [];
  version_log = [];
  wal = some [];
}

there : get_table (codes "t") logged ≡ some two_rows
unfolding get_table Map.get text_key text_beq
there = refl

abbrev first_row : Row ℕ
first_row = record {
  id = RowId.integer 0;
  values = Value.integer (pos 7) ∷ Value.interned_string 0 ∷ [];
  version = 1;
}

get_first : get (RowId.integer 0) two_rows ≡ some (some first_row)
unfolding get or_else get_row_by_index slice
get_first = refl

get_absent : get (RowId.integer 5) two_rows ≡ some none
unfolding get or_else Map.get
get_absent = refl

delete_row-RowDeleted_example :
    (t' : Sample) × (db' : Db) × (delete_row 0 (codes "t") (RowId.integer 0) logged ≡ (db', ok tt))
    × RowDeleted logged 0 (codes "t") (RowId.integer 0) t' db'
    × Deleted two_rows (RowId.integer 0) t'
delete_row-RowDeleted_example =
    delete_row-RowDeleted logged 0 (codes "t") (RowId.integer 0) two_rows there two_rows-IsValid
      first_row get_first

delete_row_missing_example :
    (db' : Db) × (delete_row 0 (codes "t") (RowId.integer 5) logged
      ≡ (db', err (TableError.schema_violation (Violation.row_not_found (RowId.integer 5)))))
    × (db'.version_log ≡ logged.version_log)
    × (db'.wal ≡ logged.wal)
    × ((n : Text) → get_table n db' ≡ get_table n logged)
delete_row_missing_example =
    delete_row_missing logged 0 (codes "t") (RowId.integer 5) two_rows there two_rows-IsValid
      get_absent

one_table : Map.IsMap logged.tables
unfolding Map.get
one_table = (refl, tt)

get-from_snapshot_example :
    (t' : Sample) × (get_table {W = List (WalEntry ℕ)} (codes "t") (from_snapshot (snapshot logged))
      ≡ some t')
    × ((j : RowId) → get j t' ≡ get j two_rows)
get-from_snapshot_example =
    get-from_snapshot logged one_table (codes "t") two_rows there two_rows-IsValid.laid
