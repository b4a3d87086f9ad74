-- ===== src/Tests/Reads.antt =====
-- Lookups and deletions of the sample tables.
use dbobj.Base.{ℕ, ◌≡◌, refl, ◌↔◌, none, some, List, [], ◌∷◌, Text, codes, ok, get_elem?, slice}
use dbobj.Base.Int.{pos}
use dbobj.Core.Id.{RowId, id_beq, id_key, text_key}
use dbobj.Core.Value.{Value}
use dbobj.Map
use dbobj.Table.{Row}
use dbobj.Table.Delete.{delete}
use dbobj.Table.Delete.Methods.{Deleted, delete-Deleted, delete_missing}
use dbobj.Table.Insert.{leave_sequential}
use dbobj.Table.Insert.Sequential.{get-leave_sequential}
use dbobj.Table.Read.{new, get, get_index, lookup_row, or_else, get_row_by_index}
use dbobj.Table.Read.Index.{get_index_iff, get-eq-get_index}
use dbobj.Table.Read.New.{new-IsValid}
use dbobj.Table.Valid.{IsValid}
use dbobj.Tests.Instances.{nat_float, list_interner}
use dbobj.Tests.Tables.{
  Sample, schema, two_rows, two_rows-IsValid, mapped_rows, mapped_rows-IsValid,
}

new-IsValid_example : IsValid (new {F = ℕ} {P = List Text} (codes "t") schema)
new-IsValid_example = new-IsValid (codes "t") schema

get_index_iff_example :
    (get_index (RowId.integer 1) two_rows ≡ some 1)
    ↔ (get_elem? two_rows.ids 1 ≡ some (RowId.integer 1))
get_index_iff_example = get_index_iff two_rows two_rows-IsValid.laid (RowId.integer 1) 1

get-eq-get_index_example :
    get (RowId.integer 1) two_rows ≡ lookup_row (get_index (RowId.integer 1) two_rows) two_rows
get-eq-get_index_example = get-eq-get_index two_rows two_rows-IsValid.laid (RowId.integer 1)

get-leave_sequential_example :
    get (RowId.integer 0) (leave_sequential two_rows) ≡ get (RowId.integer 0) two_rows
get-leave_sequential_example = get-leave_sequential two_rows two_rows-IsValid.laid (RowId.integer 0)

abbrev first_row : Row ℕ
first_row = record {
  id = RowId.integer 0;
  values = Value.integer (pos 7) ∷ Value.interned_string 0 ∷ [];
  version = 1;
}

get_first : get (RowId.integer 0) two_rows ≡ some (some first_row)
unfolding get or_else get_row_by_index slice
get_first = refl

get_absent : get (RowId.integer 5) mapped_rows ≡ some none
unfolding get or_else Map.get id_key id_beq
get_absent = refl

delete-Deleted_example :
    (t' : Sample) × (delete (RowId.integer 0) two_rows ≡ (t', ok (some first_row)))
    × Deleted two_rows (RowId.integer 0) t'
delete-Deleted_example =
    delete-Deleted two_rows two_rows-IsValid (RowId.integer 0) first_row get_first

delete_missing_example : delete (RowId.integer 5) mapped_rows ≡ (mapped_rows, ok none)
delete_missing_example = delete_missing mapped_rows mapped_rows-IsValid (RowId.integer 5) get_absent
