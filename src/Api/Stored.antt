-- ===== src/Api/Stored.antt =====
-- A record that was inserted, in the range queries that follow (example/BDBImpl.cc).
use oxford_sigmod.Base.{
  List, [], ◌∷◌, refl, none, ℕ, suc, ◌<◌, true, false, Option, some, ◌≡◌, arith, ap, sym, ◌∙◌,
  length, map,
}
use mathlib.Core.Path.{subst}
use oxford_sigmod.Types.{k_ok, Key, Record, AttributeType}
use oxford_sigmod.Bdb.{Bdb}
use oxford_sigmod.Bdb.Laws.{Cursors, put_row}
use oxford_sigmod.Structure.{IndexStructure, below, get_bdb_key}
use oxford_sigmod.Structure.Encoding.{IsExact, get_key-get_bdb_key}
use oxford_sigmod.World.{World, returned}
use oxford_sigmod.Index.Effect.{Opened}
use oxford_sigmod.Iterator.Rows.{filter, selected, IsSorted}
use oxford_sigmod.Iterator.Order.{length-put_row, put_row-IsSorted, filter-put_row}
use oxford_sigmod.Api.{insert_record, get_records}
use oxford_sigmod.Api.Iteration.{record_of}
use oxford_sigmod.Api.Insertion.{row_of, insert_record-puts}
use oxford_sigmod.Api.Traversal.{fetch_all, delivery}
use oxford_sigmod.Api.RangeQuery.{Readable, get_records-selects}

length-IsExact : (ts : List AttributeType) (k : Key) → IsExact ts k → length k ≡ length ts
length-IsExact [] [] exact = refl
length-IsExact [] (x ∷ k) exact = absurd exact
length-IsExact (t ∷ ts) [] exact = absurd exact
length-IsExact (t ∷ ts) (none ∷ k) exact = absurd exact
length-IsExact (t ∷ ts) (some a ∷ k) exact = omega (arith, length-IsExact ts k exact.2)

-- An exact record comes back from the row that it is stored as.
record_of-row_of :
    (s : IndexStructure) (r : Record) → IsExact s.type r.key → record_of s (row_of s r) ≡ r
record_of-row_of s r exact =
    ap (λ k. record { key = k; payload = r.payload }) (get_key-get_bdb_key s.type r.key false exact)

module _ {B : Bdb} {w : World B} {h p db : ℕ} {s : IndexStructure} (opened : Opened w h p db s)
    (L : Cursors B (below s.type)) (r : Record) where
  open L use {rows}

  -- After InsertRecord of a record whose key lies in a range, GetRecords on that range and the calls of
  -- GetNext on its iterator deliver the records that the range selected from the rows before, with
  -- the new record behind those that its key is not below and before those that it is below, and
  -- then kErrorNotFound; the new record comes back as it was given. The handle is open and has a
  -- database, the index is not read-only, the key has no NULL and exactly the bytes of the index's
  -- types, the bounds have its attribute count, the rows are sorted by their keys, the number of
  -- calls and the fuel exceed the number of rows afterwards, and Berkeley DB meets no lock conflict.
  pub insert_record-found :
      (tx tx' : Option ℕ) (min_keys max_keys : Key) (old : Option ℕ) (calls fuel : ℕ)
      → opened.object.closed ≡ false
      → IsExact s.type r.key
      → length min_keys ≡ length s.type
      → length max_keys ≡ length s.type
      → IsSorted s.type (rows db w.env)
      → suc (length (rows db w.env)) < calls
      → suc (length (rows db w.env)) < fuel
      → let range = selected s.type (get_bdb_key s.type min_keys false) max_keys in
        range (row_of s r) ≡ true
        → (w' : World B) × (it : ℕ) × (w1 : World B) × (w2 : World B) × (insert_record tx
              (some h)
              (some r)
              w
            ≡ (returned k_ok, w'))
          × (get_records tx' (some h) min_keys max_keys (some old) w'
              ≡ (returned (k_ok, some (some it)), w1))
          × (fetch_all calls fuel it w1
              ≡ delivery
                  (map
                    (record_of s)
                    (put_row (below s.type) (row_of s r) (filter range (rows db w.env))))
                  w2)
          × (record_of s (row_of s r) ≡ r)
  insert_record-found tx tx' min_keys max_keys old calls fuel open_handle exact min_fits max_fits
        sorted few enough selects =
      let range = selected s.type (get_bdb_key s.type min_keys false) max_keys in
      let (F, e', ran, (T, at), final) =
        insert_record-puts opened L r tx open_handle (length-IsExact s.type r.key exact) in
      let w' : World B = record w { structures = F; env = e' } in
      let s' : IndexStructure = record s { transactions = T } in
      let readable : Readable w' h p db s' = record {
        object = opened.object;
        at_object = opened.at_object;
        is_open = open_handle;
        at_db = opened.at_db;
        at_structure = opened.at_structure;
        found = at;
      } in
      let longer : length (rows db e') ≡ suc (length (rows db w.env)) =
        ap length final ∙ length-put_row (below s.type) (row_of s r) (rows db w.env) in
      let (it, w1, w2, got, fetched) =
        get_records-selects readable L tx' min_keys max_keys old calls fuel min_fits max_fits
          (subst (IsSorted s.type) (sym final)
            (put_row-IsSorted s.type (row_of s r) (rows db w.env) sorted))
          (omega arith) (omega arith) in
      (
        w',
        it,
        w1,
        w2,
        ran,
        got,
        fetched
            ∙ ap (λ chosen. delivery (map (record_of s) chosen) w2)
                (ap (filter range) final
                  ∙ filter-put_row s.type range (row_of s r) (rows db w.env) sorted selects),
        record_of-row_of s r exact,
      )
