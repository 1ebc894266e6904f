-- ===== src/Table/Creation.antt =====
-- A client that creates an index, opens it, and sends requests (example/BDBImpl.cc).
use oxford_sigmod.Base.{
  ℕ, ◌<◌, true, false, Option, none, some, List, [], ◌≡◌, refl, ap, ◌∙◌, arith, length, All, take,
  String, ◌==◌, ltb,
}
use oxford_sigmod.Types.{AttributeType}
use oxford_sigmod.Bdb.{Bdb, done}
use oxford_sigmod.Bdb.Laws.{Cursors}
use oxford_sigmod.Structure.{below}
use oxford_sigmod.World.{World, M, ◌>>=◌, pure, returned}
use oxford_sigmod.Api.{given_name, create_index, open_index}
use oxford_sigmod.Api.Lifecycle.{created, create_index-opens}
use oxford_sigmod.Table.{Request, Answer, IsValid, answer_all, serve_all}
use oxford_sigmod.Table.State.{IsTable}
use oxford_sigmod.Table.Refinement.{serve_all-refines}

module _ {B : Bdb} (calls fuel : ℕ) (tx : Option ℕ) where
  -- Without a handle there are no answers.
  unfoldable pub run_program : String → ℕ → List AttributeType → List Request → M B (List Answer)
  unfolding create_index open_index serve_all
  run_program name n types requests = do
    created_code ← create_index (some name) n (some types)
    (code, handle) ← open_index (some name) none
    elim handle [ none ↦ pure [] | some h ↦ serve_all calls fuel tx h requests ]

  -- A client that creates an index, opens it, and then sends any requests, gets the answers that an
  -- empty list of rows gives to them, and the index has the rows that are left in that list. The
  -- name is not empty, the number of columns is not 0 and not greater than that of the types, Berkeley DB creates and
  -- opens the database, which has no rows then, the keys have the index's attribute count, those
  -- to remove or change have no NULL and exactly the bytes of their types, UpdateRecord and
  -- DeleteRecord are called without kMatchDuplicates, the calls of GetNext after a GetRecords and
  -- the fuel exceed the number of requests, and Berkeley DB meets no lock conflict.
  pub run_program-refines :
      (name : String) (n : ℕ) (types : List AttributeType) (requests : List Request)
      (L : Cursors B (below (take n types))) (w : World B) (db db' : ℕ) (e1 e2 e3 e4 : B.Env)
      → given_name (some name) ≡ some name
      → (n == 0) ≡ false
      → ltb (length types) n ≡ false
      → B.db_create w.env ≡ (done db, e1)
      → B.db_open db name true e1 ≡ (done tt, e2)
      → B.db_create (B.db_destroy db e2) ≡ (done db', e3)
      → B.db_open db' name false e3 ≡ (done tt, e4)
      → L.rows db' e4 ≡ []
      → All (IsValid (take n types)) requests
      → length requests < calls
      → length requests < fuel
      → (w' : World B) × (run_program name n types requests w
          ≡ (returned (answer_all (take n types) requests []).0, w'))
        × (L.rows db' w'.env ≡ (answer_all (take n types) requests []).1)
  unfolding run_program
  run_program-refines name n types requests L w db db' e1 e2 e3 e4 given some_columns columns made
        opened made' opened' empty valid few enough =
      let (w1, w2, h, p, size, creates, opens, readable, _, at_env) =
        create_index-opens w name n types none db db' e1 e2 e3 e4 given some_columns columns made
          opened made' opened' in
      let table : IsTable h p db' (created (take n types) size h) L w2 [] = record {
        object = readable.object;
        at_object = readable.at_object;
        is_open = readable.is_open;
        at_db = readable.at_db;
        at_structure = readable.at_structure;
        transactions = [];
        found = readable.found;
        writable = refl;
        same_rows = ap (L.rows db') at_env ∙ empty;
        sorted = tt;
      } in
      let (w', ran, left) =
        serve_all-refines L tx calls fuel requests [] w2 table valid (omega arith) (omega arith) in
      (w', ground (arith, creates, opens, ran), left.same_rows)
