-- ===== src/Table/Archive/RoundTrip.antt =====
-- table.rs: lookups in a table that is archived and rebuilt.
use dbobj.Base.{ℕ, ◌≡◌, refl, ◌∙◌, inl, inr, Bool-cases, Option, none, some, []}
use dbobj.Core.Float.{Float}
use dbobj.Core.Id.{RowId, id_key}
use dbobj.Core.Pool.{Interner}
use dbobj.Map
use dbobj.Map.{IsMap, HashMap, get-collect}
use dbobj.Table.{Table}
use dbobj.Table.Archive.{prepare_for_archive, skip_fields, rebuild_from_archive}
use dbobj.Table.Read.{get, lookup_row, get_row_by_index}
use dbobj.Table.Valid.{IsLaid}

module _ {F P : Type 0} ⦃fl : Float F⦄ ⦃it : Interner P⦄ (t : Table F P) (laid : IsLaid t) where
  id_map-IsMap : IsMap t.id_map
  id_map-IsMap = elim (Bool-cases t.is_sequential_ids) [
    | inl q ↦ rw (laid.sequential q).unused tt
    | inr q ↦ (laid.mapped q).is_map
  ]

  entries_kept : (j : RowId) → Map.get j (Map.collect [] t.id_map) ≡ Map.get j t.id_map
  entries_kept j =
      get-collect [] t.id_map j id_map-IsMap ∙ unfold Map.get in Map.first-none (Map.get j t.id_map)

  -- A table whose layout is valid reads the same by `get` after it is prepared for the archive,
  -- loses the fields that the archive skips, and is rebuilt.
  pub get-rebuild_from_archive :
      (j : RowId) → get j (rebuild_from_archive (skip_fields (prepare_for_archive t))) ≡ get j t
  unfolding get rebuild_from_archive skip_fields prepare_for_archive lookup_row get_row_by_index
  get-rebuild_from_archive j = rw (entries_kept j) (again _)
    where
      again :
          (o : Option ℕ)
          → lookup_row o (rebuild_from_archive (skip_fields (prepare_for_archive t)))
            ≡ lookup_row o t
      again none = refl
      again (some i) = refl

  -- the same within one process, where no field is skipped
  pub get-rebuild_in_place :
      (j : RowId) → get j (rebuild_from_archive (prepare_for_archive t)) ≡ get j t
  unfolding get rebuild_from_archive prepare_for_archive lookup_row get_row_by_index
  get-rebuild_in_place j = rw (entries_kept j) (again _)
    where
      again :
          (o : Option ℕ)
          → lookup_row o (rebuild_from_archive (prepare_for_archive t)) ≡ lookup_row o t
      again none = refl
      again (some i) = refl
