-- ===== src/Database/Snapshot/Laws.antt =====
-- database.rs: the tables of a database after `snapshot` and `from_snapshot`.
use mathlib.Core.Option
use dbobj.Base.{◌≡◌, refl, ◌∙◌, ap, Option, none, some, List, [], ◌∷◌, Text, arith}
use dbobj.Core.Float.{Float}
use dbobj.Core.Id.{RowId, text_key}
use dbobj.Core.Pool.{Interner}
use dbobj.Database.{Database, get_table}
use dbobj.Database.Snapshot.{each_table, snapshot, from_snapshot}
use dbobj.Map
use dbobj.Map.{IsMap, get-collect}
use dbobj.Table.{Table}
use dbobj.Table.Archive.RoundTrip.{get-rebuild_in_place}
use dbobj.Table.Read.{get}
use dbobj.Table.Valid.{IsLaid}
use dbobj.Table.Archive.{prepare_for_archive, rebuild_from_archive}

module _ {F P : Type 0} (f : Table F P → Table F P) where
  get-each_table :
      (n : Text) (m : List (Text × Table F P))
      → Map.get n (each_table f m) ≡ Option.map f (Map.get n m)
  unfolding each_table Map.get
  get-each_table n [] = refl
  get-each_table n ((name, t) ∷ rest) = ground (arith, get-each_table n rest)

  each_table-IsMap : (m : List (Text × Table F P)) → IsMap m → IsMap (each_table f m)
  unfolding each_table
  each_table-IsMap [] h = tt
  each_table-IsMap ((name, t) ∷ rest) h =
      (get-each_table name rest ∙ ap (Option.map f) h.0, each_table-IsMap rest h.1)

module _ {F P W : Type 0} ⦃fl : Float F⦄ ⦃it : Interner P⦄ (db : Database F P W)
    (is_map : IsMap db.tables) where
  get_table-from_snapshot :
      (n : Text)
      → get_table {W = W} n (from_snapshot (snapshot db))
        ≡ Option.map (λ t. rebuild_from_archive (prepare_for_archive t)) (get_table n db)
  unfolding get_table from_snapshot snapshot
  get_table-from_snapshot n =
      get-collect [] (each_table rebuild_from_archive (each_table prepare_for_archive db.tables)) n
        (each_table-IsMap rebuild_from_archive (each_table prepare_for_archive db.tables)
          (each_table-IsMap prepare_for_archive db.tables is_map))
      ∙ unfold Map.get in
        Map.first-none
          (Map.get n (each_table rebuild_from_archive (each_table prepare_for_archive db.tables)))
        ∙ get-each_table rebuild_from_archive n (each_table prepare_for_archive db.tables)
        ∙ rw (get-each_table prepare_for_archive n db.tables) (twice (Map.get n db.tables))
    where
      twice :
          (o : Option (Table F P))
          → Option.map rebuild_from_archive (Option.map prepare_for_archive o)
            ≡ Option.map (λ t. rebuild_from_archive (prepare_for_archive t)) o
      twice none = refl
      twice (some t) = refl

  -- In a database that has at most one table for a name, a name whose table has a valid layout has,
  -- after `snapshot` and `from_snapshot`, a table that reads the same by `get`.
  pub get-from_snapshot :
      (n : Text) (t : Table F P)
      → get_table n db ≡ some t
      → IsLaid t
      → (t' : Table F P) × (get_table {W = W} n (from_snapshot (snapshot db)) ≡ some t')
        × ((j : RowId) → get j t' ≡ get j t)
  get-from_snapshot n t here laid = (
    rebuild_from_archive (prepare_for_archive t),
    get_table-from_snapshot n ∙ rw here refl,
    get-rebuild_in_place t laid,
  )
