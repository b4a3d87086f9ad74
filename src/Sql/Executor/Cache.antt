-- ===== src/Sql/Executor/Cache.antt =====
-- executor.rs: the cache of parsed statements.
use mathlib.Core.Path.{subst}
use dbobj.Base.{
  suc, ◌≤◌, ◌≡◌, refl, sym, ap, ◌∙◌, arith, Bool-cases, true, false, Option, none, some, inl, inr,
  List, [], ◌∷◌, Text, text_beq, text_beq_sound, Res, ok, err, panic, leb, if◌then◌else◌, length,
}
use dbobj.Core.Id.{text_key}
use dbobj.Map
use dbobj.Map.{HashMap, Key}
use dbobj.Sql.Ast.{Statement}
use dbobj.Sql.Executor.{
  SqlError, parse_failed, StatementCache, max_cache_size, make_room, remember, cached_or,
  get_or_parse, run_parsed, execute,
}
use dbobj.Sql.Parser.{ParseFloat, Stop}
use dbobj.Sql.Parser.Statement.{parse}

length-insert {ℓ κ} :
    {K : Type ℓ} {V : Type κ} ⦃key : Key K⦄ (k : K) (v : V) (m : HashMap K V)
    → length (Map.insert k v m) ≤ suc (length m)
unfolding Map.insert
length-insert k v [] = omega arith
length-insert k v ((j, w) ∷ m) = ground (arith, length-insert k v m)

module _ {F : Type 0} ⦃pf : ParseFloat F⦄ where
  make_room-fits : (cache : StatementCache F) → suc (length (make_room cache)) ≤ max_cache_size
  unfolding make_room max_cache_size
  make_room-fits cache = ground arith

  -- A statement cache of at most 512 entries has at most 512 after `get_or_parse`, whether the text
  -- is in it, is parsed, or is refused.
  pub get_or_parse-bounded :
      (sql : Text) (cache : StatementCache F)
      → length cache ≤ max_cache_size
      → length (get_or_parse sql cache).0 ≤ max_cache_size
  unfolding get_or_parse
  get_or_parse-bounded sql cache h = by_lookup (Map.get sql cache) (parse sql)
    where
      by_lookup :
          (o : Option (List (Statement F))) (r : Res Stop (List (Statement F)))
          → length (cached_or o (remember sql r) cache).0 ≤ max_cache_size
      by_lookup (some stmts) r = h
      by_lookup none (Res.ok parsed) =
          omega (arith, length-insert sql parsed (make_room cache), make_room-fits cache)
      by_lookup none (Res.err e) = h
      by_lookup none Res.panic = h

  -- Each text in the cache is there with what its parse gives.
  abbrev pub Faithful : StatementCache F → Type 0
  Faithful cache =
      (sql : Text) (stmts : List (Statement F))
      → Map.get sql cache ≡ some stmts
      → parse sql ≡ ok stmts

  -- the answer of a parser without a cache
  unfoldable pub answer : Res Stop (List (Statement F)) → Res SqlError (List (Statement F))
  answer (Res.ok stmts) = ok stmts
  answer (Res.err e) = err (parse_failed e)
  answer Res.panic = panic

  make_room-Faithful : (cache : StatementCache F) → Faithful cache → Faithful (make_room cache)
  unfolding make_room Map.get
  make_room-Faithful cache h sql stmts e = elim (Bool-cases (leb max_cache_size (length cache))) [
    | inl full ↦ absurd (ground (arith, full, e))
    | inr room ↦ h sql stmts (ground (arith, room, e))
  ]

  insert-Faithful :
      (sql : Text) (parsed : List (Statement F)) (cache : StatementCache F)
      → parse sql ≡ ok parsed
      → Faithful cache
      → Faithful (Map.insert sql parsed cache)
  unfolding text_key
  insert-Faithful sql parsed cache p h k stmts e = elim (Bool-cases (text_beq sql k)) [
    | inl same ↦
        subst (λ s. parse s ≡ ok stmts) (text_beq_sound sql k same)
          (p ∙ ap ok (some-injective (sym (at_key true same) ∙ e)))
    | inr other ↦ h k stmts (sym (at_key false other) ∙ e)
  ]
    where
      at_key :
          (b : _)
          → text_beq sql k ≡ b
          → Map.get k (Map.insert sql parsed cache) ≡ (if b then some parsed else Map.get k cache)
      at_key b q =
          Map.get-insert sql k parsed cache ∙ ap (λ x. if x then some parsed else Map.get k cache) q

      some-injective : some parsed ≡ some stmts → parsed ≡ stmts
      some-injective q = cc

  pub get_or_parse-parse :
      (sql : Text) (cache : StatementCache F)
      → Faithful cache
      → ((get_or_parse sql cache).1 ≡ answer (parse sql)) × Faithful (get_or_parse sql cache).0
  unfolding get_or_parse answer
  get_or_parse-parse sql cache h = by_lookup (Map.get sql cache) refl (parse sql) refl
    where
      by_lookup :
          (o : Option (List (Statement F)))
          → Map.get sql cache ≡ o
          → (r : Res Stop (List (Statement F))) → parse sql ≡ r
          → ((cached_or o (remember sql r) cache).1 ≡ answer r)
            × Faithful (cached_or o (remember sql r) cache).0
      by_lookup (some stmts) e r q = (ap answer (sym (h sql stmts e) ∙ q), h)
      by_lookup none e (Res.ok parsed) q =
          (refl, insert-Faithful sql parsed (make_room cache) q (make_room-Faithful cache h))
      by_lookup none e (Res.err x) q = (refl, h)
      by_lookup none e Res.panic q = (refl, h)

  -- When each entry of the statement cache is what its text parses to, `execute` through the cache
  -- leaves the database and returns the result that running a fresh parse of the text does, and the
  -- cache keeps that property.
  pub execute-parse :
      {D R : Type 0} (execute_statement : Statement F → D → D × Res SqlError R) (start : R)
      (sql : Text) (cache : StatementCache F) (d : D)
      → Faithful cache
      → ((execute execute_statement start sql (cache, d)).0.1
          ≡ (run_parsed execute_statement start (answer (parse sql)) d).0)
        × ((execute execute_statement start sql (cache, d)).1
            ≡ (run_parsed execute_statement start (answer (parse sql)) d).1)
        × Faithful (execute execute_statement start sql (cache, d)).0.0
  unfolding execute
  execute-parse execute_statement start sql cache d h =
      let (e, f) = get_or_parse-parse sql cache h in
      (
        ap (λ r. (run_parsed execute_statement start r d).0) e,
        ap (λ r. (run_parsed execute_statement start r d).1) e,
        f,
      )
