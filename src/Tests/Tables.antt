-- ===== src/Tests/Tables.antt =====
-- Requests of a client on an index with four records.
use oxford_sigmod.Base.{true, false, none, List, [], ◌∷◌, ◌≡◌, refl, arith, All, inr}
use oxford_sigmod.Types.{k_ok, k_error_not_found}
use oxford_sigmod.Util.{keycmp, keycmp_loop, attcmp, compare_ints, le_value}
use oxford_sigmod.Bdb.Laws.{put_row, same_bytes}
use oxford_sigmod.Structure.{
  get_key, get_bdb_key, memcpy, attribute_size, attribute_bytes, compare_dbts,
}
use oxford_sigmod.World.{World, returned}
use oxford_sigmod.Index.Modify.{ignore_payload}
use oxford_sigmod.Table.{
  Request, Answer, insert, remove, change, select, code, selection, IsValid, answer, answer_all,
  serve_all,
}
use mathlib.Core.List.{Permᴰ}
use oxford_sigmod.Table.Commuting.{AreDistinct}
use oxford_sigmod.Table.Loading.{load, load-commutes}
use oxford_sigmod.Table.State.{IsTable}
use oxford_sigmod.Table.Refinement.{serve_all-refines}
use oxford_sigmod.Table.Creation.{run_program, run_program-refines}
use oxford_sigmod.Bdb.Laws.{start}
use oxford_sigmod.Tests.{row, pair, rec, kinds, small, cursors, structure, handle, world}
use oxford_sigmod.Tests.Queries.{four_rows, sorted}

-- (1, 9) is removed, and is not found then; (2, 2) comes, and (3, 1) gets another payload.
abbrev requests : List Request
requests =
    remove (rec 1 9) false
    ∷ remove (rec 1 9) true
    ∷ insert (rec 2 2)
    ∷ change (rec 3 1) true (8 ∷ [])
    ∷ select (pair 2 0) (pair 3 2)
    ∷ []

answered : answer_all kinds requests four_rows ≡ (
  code k_ok
      ∷ code k_error_not_found
      ∷ code k_ok
      ∷ code k_ok
      ∷ selection (rec 2 1 ∷ rec 2 2 ∷ record (rec 3 1) { payload = 8 ∷ [] } ∷ [])
      ∷ [],
  row 1 1 ∷ row 2 1 ∷ row 2 2 ∷ record (row 3 1) { value = 8 ∷ [] } ∷ [],
)
unfolding answer answer_all compare_dbts get_key memcpy attribute_size keycmp keycmp_loop attcmp
    compare_ints le_value get_bdb_key attribute_bytes put_row same_bytes ignore_payload
answered = refl

table : IsTable 0 0 0 (structure []) cursors (world false) four_rows
table = record {
  object = handle false;
  at_object = refl;
  is_open = refl;
  at_db = refl;
  at_structure = refl;
  transactions = [];
  found = refl;
  writable = refl;
  same_rows = refl;
  sorted = sorted;
}

requests-IsValid : All (IsValid kinds) requests
unfolding attribute_size
requests-IsValid = (
  (refl, refl, (refl, refl, tt)),
  ((refl, refl, (refl, refl, tt)), (refl, ((refl, refl, (refl, refl, tt)), ((refl, refl), tt)))),
)

serve_all-refines_example :
    (w' : World small) × (serve_all 10 10 none 0 requests (world false)
      ≡ (returned (answer_all kinds requests four_rows).0, w'))
    × IsTable 0 0 0 (structure []) cursors w' (answer_all kinds requests four_rows).1
serve_all-refines_example =
    serve_all-refines cursors none 10 10 requests four_rows (world false) table requests-IsValid
      (omega arith) (omega arith)

-- An environment without rows.
abbrev empty_world : World small
empty_world = record (world false) { env = start [] }

abbrev session : List Request
session = insert (rec 2 2) ∷ insert (rec 1 9) ∷ requests

session-IsValid : All (IsValid kinds) session
session-IsValid = (refl, (refl, requests-IsValid))

-- (3, 1) is not there to be changed.
session_answered :
    (answer_all kinds session []).0
    ≡ code k_ok
      ∷ code k_ok
      ∷ code k_ok
      ∷ code k_error_not_found
      ∷ code k_ok
      ∷ code k_error_not_found
      ∷ selection (rec 2 2 ∷ rec 2 2 ∷ [])
      ∷ []
unfolding answer answer_all compare_dbts get_key memcpy attribute_size keycmp keycmp_loop attcmp
    compare_ints le_value get_bdb_key attribute_bytes put_row same_bytes
session_answered = refl

run_program-refines_example :
    (w' : World small) × (run_program 10 10 none "c" 2 kinds session empty_world
      ≡ (returned (answer_all kinds session []).0, w'))
    × (cursors.rows 0 w'.env ≡ (answer_all kinds session []).1)
run_program-refines_example =
    let e = start [] in
    run_program-refines 10 10 none "c" 2 kinds session cursors empty_world 0 0 e e e e refl refl
      refl refl refl refl refl refl session-IsValid (omega arith) (omega arith)

-- (2, 2) and (1, 5) in both orders.
distinct : AreDistinct kinds (rec 2 2 ∷ rec 1 5 ∷ [])
unfolding compare_dbts get_key memcpy attribute_size keycmp keycmp_loop attcmp compare_ints le_value
    get_bdb_key attribute_bytes
distinct = ((inr refl, tt), (tt, tt))

load-commutes_example :
    (answers : List Answer) × (w1 : World small) × (w2 : World small) × (serve_all 20 20 none 0
        (load kinds (rec 2 2 ∷ rec 1 5 ∷ []) requests)
        (world false)
      ≡ (returned answers, w1))
    × (serve_all 20 20 none 0 (load kinds (rec 1 5 ∷ rec 2 2 ∷ []) requests) (world false)
        ≡ (returned answers, w2))
    × (cursors.rows 0 w1.env ≡ cursors.rows 0 w2.env)
load-commutes_example =
    load-commutes cursors none 20 20 (rec 2 2 ∷ rec 1 5 ∷ []) (rec 1 5 ∷ rec 2 2 ∷ []) requests
      four_rows (world false) (Permᴰ.swap refl refl) distinct table (refl, (refl, tt))
      requests-IsValid (omega arith) (omega arith)
