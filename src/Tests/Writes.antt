-- ===== src/Tests/Writes.antt =====
-- Inserts and updates of the sample tables.
use dbobj.Base.{ℕ, ◌≡◌, refl, none, some, [], ◌∷◌, codes, ok, err, arith, text_beq}
use dbobj.Base.Int.{pos}
use dbobj.Core.Id.{RowId, id_beq, id_key, text_key}
use dbobj.Core.Value.{Value}
use dbobj.Map
use dbobj.Table.{RowData, TableError, Violation}
use dbobj.Table.Convert.{validate_and_convert}
use dbobj.Table.Insert.{
  insert, insert_values, insert_batch_raw, insert_batch_values, leave_sequential,
}
use dbobj.Table.Insert.Batch.{Extends, insert_batch_values-Extends}
use dbobj.Table.Insert.Entries.{insert_next, insert_duplicate, insert_custom}
use dbobj.Table.Insert.Methods.{Inserted, InsertedNext, insert_values-Inserted}
use dbobj.Table.Flat.{id_range}
use dbobj.Table.Insert.Raw.{positions_of, insert_batch_raw-positions_of}
use dbobj.Table.Read.{get, get_index}
use dbobj.Table.Update.{update, update_values}
use dbobj.Table.Update.Methods.{
  Updated, update_values-Updated, update_sequential, update-eq-update_values,
}
use dbobj.Tests.Instances.{nat_float, list_interner}
use dbobj.Tests.Tables.{
  Sample, two_rows, two_rows-IsValid, mapped_rows, mapped_rows-IsValid, new_values,
}

free_2 : Map.get (RowId.integer 2) two_rows.id_map ≡ none
unfolding Map.get
free_2 = refl

insert_values-Inserted_example :
    (t' : Sample) × (insert_values new_values two_rows ≡ (t', ok (RowId.integer 2)))
    × InsertedNext two_rows new_values t'
insert_values-Inserted_example =
    insert_values-Inserted two_rows two_rows-IsValid new_values refl (omega arith) free_2

insert_batch_values-Extends_example :
    (t' : Sample) × (insert_batch_values (new_values ∷ new_values ∷ []) two_rows
      ≡ (t', ok (id_range 2 2)))
    × Extends two_rows 2 t'
insert_batch_values-Extends_example =
    insert_batch_values-Extends (new_values ∷ new_values ∷ []) two_rows two_rows-IsValid refl
      (refl, (refl, tt)) (omega arith)

abbrev entries : RowData ℕ
entries = (codes "n", Value.integer (pos 9)) ∷ (codes "s", Value.string (codes "b")) ∷ []

accepted : validate_and_convert entries two_rows ≡ ok new_values
unfolding validate_and_convert Map.get text_key text_beq
accepted = refl

accepted_mapped : validate_and_convert entries mapped_rows ≡ ok new_values
unfolding validate_and_convert Map.get text_key text_beq
accepted_mapped = refl

insert_next_example :
    (t' : Sample) × (insert entries none two_rows ≡ (t', ok (RowId.integer 2)))
    × InsertedNext two_rows new_values t'
insert_next_example = insert_next two_rows entries two_rows-IsValid accepted (omega arith) free_2

has_1 : get_index (RowId.integer 1) two_rows ≡ some 1
unfolding get_index id_beq
has_1 = refl

insert_duplicate_example :
    (insert entries (some (RowId.integer 1)) two_rows
      ≡ (leave_sequential two_rows, err (TableError.duplicate_id (RowId.integer 1))))
    × ((j : RowId) → get j (leave_sequential two_rows) ≡ get j two_rows)
insert_duplicate_example =
    insert_duplicate two_rows entries two_rows-IsValid accepted (RowId.integer 1) 1 has_1

free_x : get_index (RowId.string (codes "x")) two_rows ≡ none
unfolding get_index Map.get
free_x = refl

insert_custom_example :
    (t' : Sample) × (insert entries (some (RowId.string (codes "x"))) two_rows
      ≡ (t', ok (RowId.string (codes "x"))))
    × Inserted two_rows new_values (RowId.string (codes "x")) t'
insert_custom_example =
    insert_custom two_rows entries two_rows-IsValid accepted (RowId.string (codes "x")) free_x

update_values-Updated_example :
    (t' : Sample) × (update_values (RowId.integer 1) new_values two_rows ≡ (t', ok tt))
    × Updated two_rows new_values (RowId.integer 1) t'
update_values-Updated_example =
    update_values-Updated two_rows two_rows-IsValid (RowId.integer 1) new_values refl 1 has_1

update_sequential_example :
    update (RowId.integer 1) entries two_rows
    ≡ (two_rows, err (TableError.schema_violation (Violation.id_not_found (RowId.integer 1))))
update_sequential_example =
    update_sequential two_rows two_rows-IsValid (RowId.integer 1) entries accepted refl

update-eq-update_values_example :
    update (RowId.integer 1) entries mapped_rows
    ≡ update_values (RowId.integer 1) new_values mapped_rows
update-eq-update_values_example =
    update-eq-update_values mapped_rows mapped_rows-IsValid (RowId.integer 1) entries
      accepted_mapped refl

insert_batch_raw-positions_of_example :
    positions_of (codes "n") (insert_batch_raw (new_values ∷ []) two_rows).0.indexes
    ≡ positions_of (codes "n") two_rows.indexes
insert_batch_raw-positions_of_example =
    insert_batch_raw-positions_of (codes "n") (new_values ∷ []) two_rows
