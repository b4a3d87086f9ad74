-- ===== src/Table/Archive.antt =====
-- table.rs: the surrogates that are archived in place of the hash maps.
pub mod RoundTrip
use dbobj.Base.{List, [], ◌∷◌, Text}
use dbobj.Core.Float.{Float}
use dbobj.Core.Id.{id_key, text_key}
use dbobj.Core.Pool
use dbobj.Core.Pool.{Interner}
use dbobj.Core.Value.{value_key}
use dbobj.Map
use dbobj.Map.{HashMap}
use dbobj.Table.{Index, Table}

module _ {F : Type 0} ⦃fl : Float F⦄ where
  -- `Index::prepare_for_archive`
  unfoldable pub prepare_index : Index F → Index F
  prepare_index ix = record ix { map_data = ix.map; unique_map_data = ix.unique_map }

  -- `Index::rebuild_from_archive`
  unfoldable pub rebuild_index : Index F → Index F
  rebuild_index ix = record ix {
    map = Map.collect [] ix.map_data;
    unique_map = Map.collect [] ix.unique_map_data;
    map_data = [];
    unique_map_data = [];
  }

  unfoldable pub prepare_indexes : HashMap Text (Index F) → List (Text × Index F)
  unfolding prepare_index
  prepare_indexes [] = []
  prepare_indexes ((name, ix) ∷ rest) = (name, prepare_index ix) ∷ prepare_indexes rest

  unfoldable pub rebuild_indexes : List (Text × Index F) → List (Text × Index F)
  unfolding rebuild_index
  rebuild_indexes [] = []
  rebuild_indexes ((name, ix) ∷ rest) = (name, rebuild_index ix) ∷ rebuild_indexes rest

-- the fields that the archive skips, and that the reader makes by default: `Skip`
unfoldable pub skip_index : {F : Type 0} → Index F → Index F
skip_index ix = record ix { map = []; unique_map = [] }

unfoldable pub skip_indexes : {F : Type 0} → List (Text × Index F) → List (Text × Index F)
unfolding skip_index
skip_indexes [] = []
skip_indexes ((name, ix) ∷ rest) = (name, skip_index ix) ∷ skip_indexes rest

module _ {F P : Type 0} ⦃fl : Float F⦄ ⦃it : Interner P⦄ where
  unfoldable pub prepare_for_archive : Table F P → Table F P
  unfolding prepare_indexes
  prepare_for_archive t = record t {
    column_map_data = t.column_map;
    id_map_data = t.id_map;
    indexes_data = prepare_indexes t.indexes;
    string_pool = Pool.prepare_for_archive t.string_pool;
  }

  unfoldable pub rebuild_from_archive : Table F P → Table F P
  unfolding rebuild_indexes
  rebuild_from_archive t = record t {
    column_map = Map.collect [] t.column_map_data;
    id_map = Map.collect [] t.id_map_data;
    indexes = Map.collect [] (rebuild_indexes t.indexes_data);
    string_pool = Pool.rebuild_from_archive t.string_pool;
    column_map_data = [];
    id_map_data = [];
    indexes_data = [];
  }

  unfoldable pub skip_fields : Table F P → Table F P
  unfolding skip_indexes
  skip_fields t = record t {
    column_map = [];
    id_map = [];
    indexes = [];
    indexes_data = skip_indexes t.indexes_data;
    string_pool = record (t.string_pool) { interner = it.empty };
  }
