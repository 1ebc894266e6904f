-- ===== src/Consistency/Serving.antt =====
-- InsertRecord and CloseIndex on the handles of a reachable world (example/BDBImpl.cc and
-- example/Index.cc).
use oxford_sigmod.Base.{ℕ, true, false, Option, none, some, ◌≡◌, sym, arith, if◌then◌else◌}
use oxford_sigmod.Types.{ErrorCode, k_ok, k_error_unknown_index, k_error_generic_failure, Record}
use oxford_sigmod.Bdb.{Bdb, Dbt, done}
use oxford_sigmod.Structure.{IndexStructure, unregister_handle}
use oxford_sigmod.World.{World, Index, returned, update}
use oxford_sigmod.Base.Sets.{member, erase, member-erase}
use oxford_sigmod.Manager.{close, close_db, unregister}
use oxford_sigmod.Index as Handle
use oxford_sigmod.Index.{
  insert_begin, insert_put, compatible, compatible_record, index_bdb_key, is_success,
}
use oxford_sigmod.Api.{close_index, insert_record, write_error}
use mathlib.Core.Path.{subst}
use oxford_sigmod.Manager.Laws.{IsThere}
use oxford_sigmod.Consistency.Endings.{Ends, Returns}
use oxford_sigmod.Consistency.Surviving.{
  Survives, Safe, ◌>>=◌, pure, bdb, given, on_test, structure_there, start_transaction_at-Survives,
}
use oxford_sigmod.Consistency.Handling.{Serves, with_open-Returns}
use oxford_sigmod.Consistency.Runs.{Reachable, Reachable-Consistent}

module _ {B : Bdb} where
  insert_begin-Survives : (p : ℕ) (tx : Option ℕ) → Survives {B = B} p (insert_begin p tx)
  unfolding insert_begin
  insert_begin-Survives p none = (pure tt).1
  insert_begin-Survives p (some tx) = start_transaction_at-Survives tx

  insert_put-Survives :
      (p db : ℕ) (tx : Option ℕ) (key value : Dbt) → Survives {B = B} p (insert_put db tx key value)
  unfolding insert_put
  insert_put-Survives p db tx key value =
      (do
        code ← bdb (B.db_put db tx key value)
        pure (if is_success code then k_ok else k_error_generic_failure)).1

  -- A handle that is there and open.
  module _ (w : World B) (h : ℕ) (i : Index) (at : w.objects h ≡ some i) (v : Serves w i) where
    -- What `Insert` does once it has the structure's pointer.
    abbrev insert_safe : (tx : Option ℕ) (r : Record) → Safe B v.structure_pointer ErrorCode
    insert_safe tx r = do
      started ← (insert_begin v.structure_pointer tx, insert_begin-Survives v.structure_pointer tx)
      s' ← structure_there
      db' ← given i.db v.database v.at_db
      on_test started
          (
            insert_put db' tx (index_bdb_key s'.type r.key false) r.payload,
            insert_put-Survives v.structure_pointer db' tx (index_bdb_key s'.type r.key false)
                r.payload,
          )
          (pure k_error_unknown_index)

    insert-Ends :
        (tx : Option ℕ) (r : Record)
        → Ends (λ a w'. IsThere {B = B} w' v.structure_pointer) (Handle.insert tx h r w)
    unfolding Handle.insert
    insert-Ends tx r =
        let same : Handle.insert tx h r w ≡ (insert_safe tx r).0 w =
          ground (arith, at, v.at_structure) in
        subst (Ends (λ a w'. IsThere {B = B} w' v.structure_pointer)) (sym same)
          ((insert_safe tx r).1 w (v.structure, v.found))

  -- In every reachable world, whatever Berkeley DB answers, InsertRecord on a handle that is there,
  -- open or closed, with any record or none, returns a code: no exception leaves it, and it follows no
  -- NULL or dangling pointer.
  pub insert_record-Returns :
      {w : World B}
      → Reachable w
      → (tx : Option ℕ) (h : ℕ) (i : Index) (r : Option Record) → w.objects h ≡ some i
      → Returns (insert_record tx (some h) r) w
  unfolding insert_record
  insert_record-Returns {w} reached tx h i r at =
      with_open-Returns reached h i (λ g x. Handle.insert tx g x) write_error r at
        λ v x _ _. insert-Ends w h i at v tx x

  -- In a reachable world, CloseIndex on an open handle, of which Berkeley DB closes the database,
  -- returns kOk and empties the cell; the handle is deleted, and the structure of its index, which
  -- is otherwise as before, no longer lists it.
  pub close_index-closes :
      {w : World B}
      → Reachable w
      → (h : ℕ) (i : Index) (db : ℕ) (e' : B.Env) → w.objects h ≡ some i
      → i.closed ≡ false
      → i.db ≡ some db
      → B.db_close db w.env ≡ (done tt, e')
      → (p : ℕ) × (s : IndexStructure) × (w' : World B) × (i.structure ≡ some p)
        × (w.structures p ≡ some s)
        × (close_index (some (some h)) w ≡ (returned (k_ok, some none), w'))
        × (w'.objects h ≡ none)
        × (w'.structures p ≡ some (record s { handles = erase h s.handles }))
        × (member h (erase h s.handles) ≡ false)
  unfolding close_index close close_db unregister unregister_handle
  close_index-closes {w} reached h i db e' at is_open at_db closes =
      let (p, s, at_structure, found, _, _, _) =
        (Reachable-Consistent reached).listed h i at is_open in
      let w' : World B = record w {
        env = e';
        structures = update w.structures p (some (record s { handles = erase h s.handles }));
        objects =
            update
              (update (update w.objects h (some (record i { closed = true }))) h
                (some (record i { closed = true; db = none })))
              h none;
      } in
      (
        p,
        s,
        w',
        at_structure,
        found,
        ground (arith, at, is_open, at_db, closes, at_structure, found),
        ground arith,
        ground arith,
        ground (arith, member-erase h h s.handles),
      )
