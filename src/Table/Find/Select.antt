-- ===== src/Table/Find/Select.antt =====
-- table.rs: the chunks that the threads of `select` scan.
use dbobj.Base.{
  ℕ, zero, suc, ◌+◌, ◌-◌, ◌≡◌, refl, sym, ◌∙◌, inl, inr, Bool, true, false, Option, none, some,
  Option-cases, List, [], length, arith, ltb, if◌then◌else◌, ◌*◌,
}
use dbobj.Table.{Row, Table}
use dbobj.Table.Find.{cons_if, append_parts, scan, scan_chunks, div_ceil, select}
use dbobj.Table.Read.{get_row_by_index}
use dbobj.Table.Spread.{each_index, chunks, spread, spread-eq-each_index}

append_parts-one :
    {A : Type 0} (b : Bool) (a : A) (xs : Option (List A))
    → append_parts (cons_if b a (some [])) xs ≡ cons_if b a xs
append_parts-one true a none = refl
append_parts-one false a none = refl
append_parts-one true a (some xs) = refl
append_parts-one false a (some xs) = refl

module _ {F P : Type 0} (predicate : Row F → Bool) (t : Table F P) where
  abbrev visit : ℕ → Option (List (Row F))
  visit i = scan predicate 1 i t

  scan-each_index : (n start : ℕ) → scan predicate n start t ≡ each_index visit n start
  unfolding scan each_index
  scan-each_index zero start = refl
  scan-each_index (suc n) start =
      let rest = scan-each_index n (suc start) in
      elim (Option-cases (get_row_by_index start t)) [
        | inl e ↦ ground (arith, e)
        | inr (row, e) ↦
            ground (
              arith,
              e,
              rest,
              append_parts-one (predicate row) row (each_index visit n (suc start)),
            )
      ]

  scan_chunks-chunks :
      (n i c : ℕ) → scan_chunks predicate n i c t ≡ chunks visit (length t.ids) n i c
  unfolding scan_chunks chunks
  scan_chunks-chunks zero i c = refl
  scan_chunks-chunks (suc n) i c =
      let rest = scan_chunks-chunks n (suc i) c in
      let end = if ltb (length t.ids) (i * c + c) then length t.ids else i * c + c in
      ground (arith, rest, scan-each_index (end - i * c) (i * c))

module _ {F P : Type 0} (num_threads : ℕ) (predicate : Row F → Bool) (t : Table F P) where
  -- `select`, which gives each of several threads a chunk of the rows and joins their results in
  -- order, returns what one scan of all rows returns, for every number of threads and every table.
  pub select-eq-scan : select num_threads predicate t ≡ scan predicate (length t.ids) 0 t
  unfolding select spread
  select-eq-scan =
      let all = scan-each_index predicate t (length t.ids) 0 in
      let parts =
        scan_chunks-chunks predicate t num_threads 0 (div_ceil (length t.ids) num_threads) in
      let split : select num_threads predicate t
          ≡ spread (visit predicate t) num_threads (length t.ids) =
        ground (arith, all, parts) in
      split ∙ spread-eq-each_index num_threads (visit predicate t) (length t.ids) ∙ sym all
