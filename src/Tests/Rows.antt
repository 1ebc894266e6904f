-- ===== src/Tests/Rows.antt =====
-- Deletion, update and iteration over three records.
use oxford_sigmod.Base.{true, false, none, some, [], ◌∷◌, ◌++◌, ◌≡◌, refl, arith, map}
use oxford_sigmod.Types.{k_ok}
use oxford_sigmod.Util.{keycmp, keycmp_loop, attcmp, compare_ints, le_value}
use oxford_sigmod.Bdb.{not_found}
use oxford_sigmod.Bdb.Laws.{Scan, contents}
use oxford_sigmod.Structure.{get_key, memcpy, attribute_size, below, compare_dbts}
use oxford_sigmod.Structure.Encoding.{IsExact}
use oxford_sigmod.World.{World, returned, bdb}
use oxford_sigmod.Index.Modify.{delete_record, update_record, next_dup_loop}
use oxford_sigmod.Index.Scan.{next_dup_loop-changes_dups, change_dups}
use oxford_sigmod.Index.Effect.{Opened}
use oxford_sigmod.Index.Changes.{
  FirstMatch, with_value, delete_record-removes_rest, update_record-changes_rest, del-Changes,
}
use oxford_sigmod.Iterator.Next.{Reads, later}
use oxford_sigmod.Api.{get_next}
use oxford_sigmod.Structure.{get_bdb_key, attribute_bytes}
use oxford_sigmod.Api.{insert_record}
use oxford_sigmod.Api.Insertion.{insert_record-adds, row_of}
use oxford_sigmod.Api.Answering.{next_answer, fits, get_next-returns}
use oxford_sigmod.Iterator.Rows.{filter}
use oxford_sigmod.Tests.Queries.{sorted}
use oxford_sigmod.Index.Single.{Leads, delete_record-Leads, update_record-Leads}
use oxford_sigmod.Bdb.Laws.{same_bytes}
use oxford_sigmod.Tests.{row, pair, rec, kinds, small, cursors, structure, handle, iterator, world}

abbrev opened : Opened (world false) 0 0 0 (structure [])
opened = record {
  object = handle false;
  at_object = refl;
  at_db = refl;
  at_structure = refl;
  found = refl;
  writable = refl;
}

exact : IsExact kinds (pair 1 9)
unfolding attribute_size
exact = (refl, refl, (refl, refl, tt))

first : FirstMatch opened cursors (rec 1 9) exact (row 1 1 ∷ []) (row 1 9) (row 2 1 ∷ row 3 1 ∷ [])
unfolding get_key memcpy attribute_size keycmp keycmp_loop attcmp compare_ints le_value
first = record { initial = refl; lower = (refl, tt); equal = refl }

-- By key alone, and by key and payload: the record (1, 9) has the payload 5.
delete_record-Leads_example :
    Leads opened cursors
      (rec 1 9)
      exact
      (delete_record 0 none 0 (rec 1 9) 2)
      (k_ok, row 1 1 ∷ row 2 1 ∷ row 3 1 ∷ [])
unfolding compare_dbts get_key memcpy attribute_size keycmp keycmp_loop attcmp compare_ints le_value
delete_record-Leads_example =
    delete_record-Leads opened cursors (rec 1 9) exact 0 none 2 refl sorted

update_record-Leads_example :
    Leads opened cursors
      (rec 1 9)
      exact
      (update_record 0 none 0 (rec 1 9) (6 ∷ []) 0)
      (k_ok, row 1 1 ∷ with_value (6 ∷ []) (row 1 9) ∷ row 2 1 ∷ row 3 1 ∷ [])
unfolding compare_dbts get_key memcpy attribute_size keycmp keycmp_loop attcmp compare_ints le_value
    same_bytes
update_record-Leads_example =
    update_record-Leads opened cursors (rec 1 9) exact 0 none 0 refl sorted (6 ∷ [])

delete_record-removes_rest_example :
    (w' : World small) × (delete_record 3 none 0 (rec 1 9) 3 (world false) ≡ (returned k_ok, w'))
    × (contents w'.env ≡ row 1 1 ∷ [])
delete_record-removes_rest_example =
    delete_record-removes_rest opened cursors (rec 1 9) exact (row 1 1 ∷ []) (row 1 9)
      (row 2 1 ∷ row 3 1 ∷ []) first 3 none 3 refl refl (omega arith)

update_record-changes_rest_example :
    (w' : World small) × (update_record 3 none 0 (rec 1 9) (6 ∷ []) 3 (world false)
      ≡ (returned k_ok, w'))
    × (contents w'.env ≡ row 1 1 ∷ map (with_value (6 ∷ [])) (row 1 9 ∷ row 2 1 ∷ row 3 1 ∷ []))
update_record-changes_rest_example =
    update_record-changes_rest opened cursors (rec 1 9) exact (row 1 1 ∷ []) (row 1 9)
      (row 2 1 ∷ row 3 1 ∷ []) first 3 none 3 refl (6 ∷ []) refl (omega arith)

abbrev rest : Scan
rest = record { passed = row 1 1 ∷ []; at_key = (row 1 1).key; ahead = row 1 1 ∷ row 1 9 ∷ [] }

abbrev resting : World small
resting = record (world false) { env = rest }

next_dup_loop-changes_dups_example :
    (e' : Scan) × (next_dup_loop 3 (λ key. bdb (small.cursor_del 0)) 0 (row 1 1) resting
      ≡ (returned not_found, record resting { env = e' }))
    × (e'
        ≡ change_dups (below kinds) (λ x. []) (row 1 1).key (row 1 1 ∷ []) (row 1 1 ∷ row 1 9 ∷ []))
next_dup_loop-changes_dups_example =
    next_dup_loop-changes_dups cursors 0 0 (λ cursor key. bdb (small.cursor_del cursor)) (λ x. [])
      (del-Changes opened cursors (rec 1 9) exact 0) 3 (row 1 1 ∷ []) (row 1 1).key
      (row 1 1 ∷ row 1 9 ∷ []) (row 1 1) resting (omega arith) refl

-- Behind the first record, (1, 9) is passed over and (2, 1) is found.
abbrev behind_first : World small
behind_first = record (world true) {
  env = record {
    passed = row 1 1 ∷ [];
    at_key = (row 1 1).key;
    ahead = row 1 9 ∷ row 2 1 ∷ row 3 1 ∷ [];
  };
}

Reads-first : Reads behind_first 0 0 (iterator true) (structure [])
Reads-first = record {
  at_iterator = refl;
  at_cursor = refl;
  object = handle false;
  structure = 0;
  at_object = refl;
  at_structure = refl;
  found = refl;
  counts = refl;
}

-- All rows but the first are before the iterator.
get_next-returns_example :
    (w' : World small) × (get_next 4 (some 0) (some none) behind_first ≡ (
      returned (
          next_answer
            (structure [])
            (filter (fits (structure []) (pair 2 4)) (row 1 9 ∷ row 2 1 ∷ row 3 1 ∷ []))),
      w',
    ))
get_next-returns_example =
    get_next-returns Reads-first cursors 0 refl refl none 4 (row 1 9 ∷ row 2 1 ∷ row 3 1 ∷ [])
      (omega arith) (later (row 1 1 ∷ []) (row 1 1).key refl refl) sorted.1

insert_record-adds_example :
    (w' : World small) × (insert_record none (some 0) (some (rec 1 9)) (world false)
      ≡ (returned k_ok, w'))
    × (contents w'.env
        ≡ (row 1 1 ∷ row 1 9 ∷ []) ++ row_of (structure []) (rec 1 9) ∷ row 2 1 ∷ row 3 1 ∷ [])
unfolding compare_dbts get_bdb_key attribute_bytes get_key memcpy attribute_size keycmp keycmp_loop
    attcmp compare_ints le_value
insert_record-adds_example =
    insert_record-adds opened cursors (rec 1 9) none (row 1 1 ∷ row 1 9 ∷ [])
      (row 2 1 ∷ row 3 1 ∷ []) refl refl refl (refl, (refl, tt)) (refl, (refl, tt))
