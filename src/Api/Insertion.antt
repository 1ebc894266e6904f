-- ===== src/Api/Insertion.antt =====
-- What InsertRecord leaves of the rows of an index (example/BDBImpl.cc and example/Index.cc).
use oxford_sigmod.Base.{
  ℕ, Bool, true, false, Option, none, some, List, [], ◌∷◌, ◌++◌, ◌≡◌, refl, arith, length, All, ap,
  ◌∙◌,
}
use oxford_sigmod.Base.Sets.{insert}
use oxford_sigmod.Types.{k_ok, Record}
use oxford_sigmod.Bdb.{Bdb, Row, Dbt}
use oxford_sigmod.Bdb.Laws.{Cursors, put_row}
use oxford_sigmod.Structure.{IndexStructure, below, get_bdb_key}
use oxford_sigmod.World.{World, returned, update}
use oxford_sigmod.Index as Handle
use oxford_sigmod.Index.{insert_begin, insert_put, index_bdb_key, compatible_record, compatible}
use oxford_sigmod.Index.Lookup.{start_transaction_at-runs, IsTouched}
use oxford_sigmod.Index.Effect.{Opened}
use oxford_sigmod.Api.{insert_record}

-- The row that a record is stored as.
abbrev pub row_of : IndexStructure → Record → Row
row_of s r = record { key = get_bdb_key s.type r.key false; value = r.payload }

put_row-splits :
    (less : Dbt → Dbt → Bool) (r : Row) (before after : List Row)
    → All (λ x. less r.key x.key ≡ false) before
    → All (λ x. less r.key x.key ≡ true) after
    → put_row less r (before ++ after) ≡ before ++ r ∷ after
unfolding put_row
put_row-splits less r [] [] low high = refl
put_row-splits less r [] (x ∷ after) low high = rw high.0 refl
put_row-splits less r (x ∷ before) after low high =
    ground (arith, low.0, put_row-splits less r before after low.1 high)

module _ {B : Bdb} {w : World B} {h p db : ℕ} {s : IndexStructure} (opened : Opened w h p db s)
    (L : Cursors B (below s.type)) (r : Record) where
  open L use {rows, stores}

  insert_begin-runs :
      (tx : Option ℕ)
      → (F : ℕ → Option IndexStructure) × (insert_begin p tx w
          ≡ (returned true, record w { structures = F }))
        × IsTouched p s F
  unfolding insert_begin
  insert_begin-runs none = (w.structures, refl, (s.transactions, opened.found))
  insert_begin-runs (some t) =
      let s' : IndexStructure = record s { transactions = insert t s.transactions } in
      (
        update w.structures p (some s'),
        start_transaction_at-runs p t w s opened.found opened.writable,
        (insert t s.transactions, ground arith),
      )

  insert-adds :
      (tx : Option ℕ)
      → (F : ℕ → Option IndexStructure) × (e' : B.Env) × (Handle.insert tx h r w
          ≡ (returned k_ok, record w { structures = F; env = e' }))
        × IsTouched p s F
        × (rows db e' ≡ put_row (below s.type) (row_of s r) (rows db w.env))
  unfolding Handle.insert insert_put index_bdb_key
  insert-adds tx =
      let (F, begun, (T, at)) = insert_begin-runs tx in
      let (e', put, final) = stores db tx (get_bdb_key s.type r.key false) r.payload w.env in
      (
        F,
        e',
        ground (arith, opened.at_object, opened.at_structure, opened.at_db, begun, at, put),
        (T, at),
        final,
      )

  pub compatible-opened :
      opened.object.closed ≡ false
      → length r.key ≡ length s.type
      → compatible_record h (some r) w ≡ (returned true, w)
  unfolding compatible_record compatible
  compatible-opened open_handle fits =
      ground (arith, opened.at_object, opened.at_structure, opened.found, open_handle, fits)

  pub insert_record-puts :
      (tx : Option ℕ)
      → opened.object.closed ≡ false
      → length r.key ≡ length s.type
      → (F : ℕ → Option IndexStructure) × (e' : B.Env) × (insert_record tx (some h) (some r) w
          ≡ (returned k_ok, record w { structures = F; env = e' }))
        × IsTouched p s F
        × (rows db e' ≡ put_row (below s.type) (row_of s r) (rows db w.env))
  unfolding insert_record
  insert_record-puts tx open_handle fits =
      let (F, e', ran, touched, final) = insert-adds tx in
      let fit = compatible-opened open_handle fits in
      (F, e', ground (arith, opened.at_object, open_handle, fit, ran), touched, final)

  -- InsertRecord returns kOk and adds exactly one row, the encoded key with the payload, behind the
  -- rows that the new key is not below (so behind its duplicates) and before those that it is below.
  -- The handle is open and has a database, the index is not read-only, the key has its attribute
  -- count, and Berkeley DB meets no lock conflict.
  pub insert_record-adds :
      (tx : Option ℕ) (before after : List Row)
      → opened.object.closed ≡ false
      → length r.key ≡ length s.type
      → rows db w.env ≡ before ++ after
      → All (λ x. below s.type (row_of s r).key x.key ≡ false) before
      → All (λ x. below s.type (row_of s r).key x.key ≡ true) after
      → (w' : World B) × (insert_record tx (some h) (some r) w ≡ (returned k_ok, w'))
        × (rows db w'.env ≡ before ++ row_of s r ∷ after)
  insert_record-adds tx before after open_handle fits same low high =
      let (F, e', ran, _, final) = insert_record-puts tx open_handle fits in
      (
        record w { structures = F; env = e' },
        ran,
        final
            ∙ ap (put_row (below s.type) (row_of s r)) same
            ∙ put_row-splits (below s.type) (row_of s r) before after low high,
      )
