-- ===== src/Consistency/Runs.antt =====
-- The worlds that calls of the interface lead to (include/contest_interface.h, example/BDBImpl.cc).
use oxford_sigmod.Base.{ℕ, Option, none, some, List, [], String, ◌≡◌}
use oxford_sigmod.Types.{AttributeType, Key, Record, Block}
use oxford_sigmod.Bdb.{Bdb}
use oxford_sigmod.World.{World, Outcome, returned, threw, stuck}
use oxford_sigmod.Api.{
  Cell, begin_transaction, abort_transaction, commit_transaction, create_index, open_index,
  close_index, delete_index, insert_record, update_record, delete_record, get_records, get_next,
  end_iterator, given_name,
}
use oxford_sigmod.Consistency.Invariant.{Consistent, Ensures}
use oxford_sigmod.Consistency.Deletion.{HasNoHandles}
use oxford_sigmod.Consistency.Calls.{
  begin_transaction-Keeps, abort_transaction-Keeps, commit_transaction-Keeps, create_index-Keeps,
  open_index_call-Keeps, close_index-Keeps, delete_index-Ensures,
}
use oxford_sigmod.Consistency.Access.{
  insert_record-Keeps, update_record_call-Keeps, delete_record_call-Keeps, get_records-Keeps,
  get_next-Keeps, end_iterator-Keeps,
}

module _ {B : Bdb} where
  -- The heap when the program starts: no index, no handle, no iterator.
  abbrev pub empty_world : B.Env → World B
  empty_world env = record {
    env = env;
    structures = λ p. none;
    indices = [];
    objects = λ h. none;
    next_structure = 0;
    next_object = 0;
    iterators = λ it. none;
    next_iterator = 0;
  }

-- The call returned or threw.
abbrev pub IsDefined : {B : Bdb} {A : Type 0} → Outcome A × World B → Type 0
IsDefined (returned a, w) = Unit {0}
IsDefined (threw e, w) = Unit {0}
IsDefined (stuck, w) = ⊥

-- One call of the interface, with any arguments, from a world to the one that it leaves when it
-- returns or throws. DeleteIndex is called only on a name whose index has no registered handle: with
-- one, `CloseHandles` has no defined result, or it throws and leaves a deleted structure in the map.
-- `fuel` bounds the loops over the rows of an index.
pub data Step {B : Bdb} : World B → World B → Type 0 where
  begins :
      (w : World B) (cell : Cell ℕ)
      → IsDefined (begin_transaction cell w)
      → Step w (begin_transaction cell w).1
  aborts :
      (w : World B) (cell : Cell ℕ)
      → IsDefined (abort_transaction cell w)
      → Step w (abort_transaction cell w).1
  commits :
      (w : World B) (cell : Cell ℕ)
      → IsDefined (commit_transaction cell w)
      → Step w (commit_transaction cell w).1
  creates :
      (w : World B) (name : Option String) (n : ℕ) (types : Option (List AttributeType))
      → IsDefined (create_index name n types w)
      → Step w (create_index name n types w).1
  opens :
      (w : World B) (name : Option String) (old : Option ℕ)
      → IsDefined (open_index name old w)
      → Step w (open_index name old w).1
  closes :
      (w : World B) (cell : Cell ℕ) → IsDefined (close_index cell w) → Step w (close_index cell w).1
  removes :
      (w : World B) (name : Option String)
      → ((n : String) → given_name name ≡ some n → HasNoHandles n w)
      → IsDefined (delete_index name w)
      → Step w (delete_index name w).1
  inserts :
      (w : World B) (tx idx : Option ℕ) (r : Option Record)
      → IsDefined (insert_record tx idx r w)
      → Step w (insert_record tx idx r w).1
  updates :
      (w : World B) (fuel : ℕ) (tx idx : Option ℕ) (r : Option Record) (payload : Option Block)
      (flags : ℕ)
      → IsDefined (update_record fuel tx idx r payload flags w)
      → Step w (update_record fuel tx idx r payload flags w).1
  deletes :
      (w : World B) (fuel : ℕ) (tx idx : Option ℕ) (r : Option Record) (flags : ℕ)
      → IsDefined (delete_record fuel tx idx r flags w)
      → Step w (delete_record fuel tx idx r flags w).1
  gets :
      (w : World B) (tx idx : Option ℕ) (min_keys max_keys : Key) (cell : Cell ℕ)
      → IsDefined (get_records tx idx min_keys max_keys cell w)
      → Step w (get_records tx idx min_keys max_keys cell w).1
  fetches :
      (w : World B) (fuel : ℕ) (it : Option ℕ) (cell : Cell Record)
      → IsDefined (get_next fuel it cell w)
      → Step w (get_next fuel it cell w).1
  ends :
      (w : World B) (cell : Cell ℕ)
      → IsDefined (end_iterator cell w)
      → Step w (end_iterator cell w).1

-- The worlds that calls lead to from the empty heap.
pub data Reachable {B : Bdb} : World B → Type 0 where
  starts : (env : B.Env) → Reachable (empty_world env)
  calls : {w w' : World B} → Reachable w → Step w w' → Reachable w'

empty_world-Consistent : (B : Bdb) (env : B.Env) → Consistent {B = B} (empty_world env)
empty_world-Consistent B env = record {
  named = tt;
  distinct = tt;
  safe = λ p s at frozen. cc at;
  listed = λ h i at open_handle. cc at;
}

module _ {B : Bdb} where
  Ensures-Consistent :
      {A : Type 0} (r : Outcome A × World B) → Ensures (λ a w'. Unit {0}) r → Consistent r.1
  Ensures-Consistent (returned a, w) h = h.0
  Ensures-Consistent (threw e, w) h = h
  Ensures-Consistent (stuck, w) h = h

  -- Each such call, with any answers of Berkeley DB, leaves a consistent heap consistent: the
  -- names in the map have structures, each its own, no transaction is registered with a read-only
  -- index, and an open handle has a database, and a structure that exists and lists the handle.
  pub Step-Consistent : {w w' : World B} → Step w w' → Consistent w → Consistent w'
  Step-Consistent (begins w cell _) c = Ensures-Consistent _ (begin_transaction-Keeps cell w c)
  Step-Consistent (aborts w cell _) c = Ensures-Consistent _ (abort_transaction-Keeps cell w c)
  Step-Consistent (commits w cell _) c = Ensures-Consistent _ (commit_transaction-Keeps cell w c)
  Step-Consistent (creates w name n types _) c =
      Ensures-Consistent _ (create_index-Keeps name n types w c)
  Step-Consistent (opens w name old _) c = Ensures-Consistent _ (open_index_call-Keeps name old w c)
  Step-Consistent (closes w cell _) c = Ensures-Consistent _ (close_index-Keeps cell w c)
  Step-Consistent (removes w name unused _) c =
      Ensures-Consistent _ (delete_index-Ensures name w c unused)
  Step-Consistent (inserts w tx idx r _) c = Ensures-Consistent _ (insert_record-Keeps tx idx r w c)
  Step-Consistent (updates w fuel tx idx r payload flags _) c =
      Ensures-Consistent _ (update_record_call-Keeps fuel tx idx r payload flags w c)
  Step-Consistent (deletes w fuel tx idx r flags _) c =
      Ensures-Consistent _ (delete_record_call-Keeps fuel tx idx r flags w c)
  Step-Consistent (gets w tx idx min_keys max_keys cell _) c =
      Ensures-Consistent _ (get_records-Keeps tx idx min_keys max_keys cell w c)
  Step-Consistent (fetches w fuel it cell _) c =
      Ensures-Consistent _ (get_next-Keeps fuel it cell w c)
  Step-Consistent (ends w cell _) c = Ensures-Consistent _ (end_iterator-Keeps cell w c)

  -- In every world that calls of the interface lead to from the empty heap, with any arguments and
  -- any answers of Berkeley DB, the names in the map have structures, each its own, no transaction
  -- is registered with a read-only index, and an open handle has a database, and a structure that
  -- exists and lists the handle. Each of the calls returns or throws, and DeleteIndex is called only
  -- on a name whose index has no registered handle.
  pub Reachable-Consistent : {w : World B} → Reachable w → Consistent w
  Reachable-Consistent (starts env) = empty_world-Consistent B env
  Reachable-Consistent (calls reached step) = Step-Consistent step (Reachable-Consistent reached)
