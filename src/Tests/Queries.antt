-- ===== src/Tests/Queries.antt =====
-- A range query, an insertion before one, and a new index.
use oxford_sigmod.Base.{ℕ, Bool, true, false, none, some, List, [], ◌∷◌, ◌≡◌, refl, arith, map}
use oxford_sigmod.Types.{k_ok, k_error_not_found}
use oxford_sigmod.Util.{keycmp, keycmp_loop, attcmp, compare_ints, le_value}
use oxford_sigmod.Bdb.{Row}
use oxford_sigmod.Bdb.Laws.{put_row}
use oxford_sigmod.Structure.{
  get_key, get_bdb_key, memcpy, attribute_size, attribute_bytes, compare_dbts, below,
}
use oxford_sigmod.World.{World, returned}
use oxford_sigmod.Api.{insert_record, get_records}
use oxford_sigmod.Api.Iteration.{record_of}
use oxford_sigmod.Api.Traversal.{fetch_all, delivery}
use oxford_sigmod.Api.Insertion.{row_of}
use oxford_sigmod.Api.Stored.{insert_record-found}
use oxford_sigmod.Index.Effect.{Opened}
use oxford_sigmod.Structure.Encoding.{IsExact}
use oxford_sigmod.Api.RangeQuery.{Readable, get_records-selects}
use oxford_sigmod.Iterator.Rows.{IsSorted, filter, selected}
use oxford_sigmod.Tests.{row, pair, rec, kinds, small, cursors, structure, handle, world}

readable : Readable (world false) 0 0 0 (structure [])
readable = record {
  object = handle false;
  at_object = refl;
  is_open = refl;
  at_db = refl;
  at_structure = refl;
  found = refl;
}

abbrev pub four_rows : List Row
four_rows = row 1 1 ∷ row 1 9 ∷ row 2 1 ∷ row 3 1 ∷ []

pub sorted : IsSorted kinds four_rows
unfolding compare_dbts get_key memcpy attribute_size keycmp keycmp_loop attcmp compare_ints le_value
sorted = (
  (λ e. cc e, (λ e. cc e, (λ e. cc e, tt))),
  ((λ e. cc e, (λ e. cc e, tt)), ((λ e. cc e, tt), (tt, tt))),
)

-- From (1, 5) to (2, 4) there is only (2, 1).
selects_one :
    filter (selected kinds (get_bdb_key kinds (pair 1 5) false) (pair 2 4)) four_rows ≡ row 2 1 ∷ []
unfolding compare_dbts get_key memcpy attribute_size keycmp keycmp_loop attcmp compare_ints le_value
    get_bdb_key attribute_bytes
selects_one = refl

get_records-selects_example :
    (it : ℕ) × (w1 : World small) × (w2 : World small) × (get_records none
        (some 0)
        (pair 1 5)
        (pair 2 4)
        (some none)
        (world false)
      ≡ (returned (k_ok, some (some it)), w1))
    × (fetch_all 5 5 it w1 ≡ (
      returned (
        map
            (record_of (structure []))
            (filter (selected kinds (get_bdb_key kinds (pair 1 5) false) (pair 2 4)) four_rows),
        k_error_not_found,
      ),
      w2,
    ))
get_records-selects_example =
    get_records-selects readable cursors none (pair 1 5) (pair 2 4) none 5 5 refl refl sorted
      (omega arith) (omega arith)

abbrev writable : Opened (world false) 0 0 0 (structure [])
writable = record {
  object = handle false;
  at_object = refl;
  at_db = refl;
  at_structure = refl;
  found = refl;
  writable = refl;
}

exact : IsExact kinds (pair 2 2)
unfolding attribute_size
exact = (refl, refl, (refl, refl, tt))

abbrev range : Row → Bool
range = selected kinds (get_bdb_key kinds (pair 1 5) false) (pair 2 4)

range_has : range (row_of (structure []) (rec 2 2)) ≡ true
unfolding compare_dbts get_key memcpy attribute_size keycmp keycmp_loop attcmp compare_ints le_value
    get_bdb_key attribute_bytes
range_has = refl

insert_record-found_example :
    (w' : World small) × (it : ℕ) × (w1 : World small) × (w2 : World small) × (insert_record
        (some 7)
        (some 0)
        (some (rec 2 2))
        (world false)
      ≡ (returned k_ok, w'))
    × (get_records none (some 0) (pair 1 5) (pair 2 4) (some none) w'
        ≡ (returned (k_ok, some (some it)), w1))
    × (fetch_all 6 6 it w1
        ≡ delivery
            (map
              (record_of (structure []))
              (put_row (below kinds) (row_of (structure []) (rec 2 2)) (filter range four_rows)))
            w2)
    × (record_of (structure []) (row_of (structure []) (rec 2 2)) ≡ rec 2 2)
insert_record-found_example =
    insert_record-found writable cursors (rec 2 2) (some 7) none (pair 1 5) (pair 2 4) none 6 6 refl
      exact refl refl sorted (omega arith) (omega arith) range_has
