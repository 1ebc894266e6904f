-- ===== src/Table/State.antt =====
-- The states of a program in which a handle serves a table of rows.
use oxford_sigmod.Base.{ℕ, false, Option, some, List, ◌≡◌}
use oxford_sigmod.Bdb.{Bdb, Row}
use oxford_sigmod.Bdb.Laws.{Cursors}
use oxford_sigmod.Structure.{IndexStructure, below}
use oxford_sigmod.World.{World, Index}
use oxford_sigmod.Iterator.Rows.{IsSorted}
use oxford_sigmod.Index.Lookup.{IsTouched}
use oxford_sigmod.Index.Effect.{Opened}
use oxford_sigmod.Api.RangeQuery.{Readable}

-- The handle is open on the index, whose structure has any set of transactions, and whose database
-- holds these rows, which are sorted.
pub record IsTable {B : Bdb} (h p db : ℕ) (s : IndexStructure) (L : Cursors B (below s.type))
    (w : World B) (rows : List Row) : Type 0 where
  pub object : Index
  pub at_object : w.objects h ≡ some object
  pub is_open : object.closed ≡ false
  pub at_db : object.db ≡ some db
  pub at_structure : object.structure ≡ some p
  pub transactions : List ℕ
  pub found : w.structures p ≡ some (record s { transactions = transactions })
  pub writable : s.read_only ≡ false
  pub same_rows : L.rows db w.env ≡ rows
  pub sorted : IsSorted s.type rows

module _ {B : Bdb} {h p db : ℕ} {s : IndexStructure} {L : Cursors B (below s.type)} {w : World B}
    {rows : List Row} (table : IsTable h p db s L w rows) where
  -- The structure as it is on the heap.
  abbrev pub current : IndexStructure
  current = record s { transactions = table.transactions }

  abbrev pub opened : Opened w h p db current
  opened = record {
    object = table.object;
    at_object = table.at_object;
    at_db = table.at_db;
    at_structure = table.at_structure;
    found = table.found;
    writable = table.writable;
  }

  abbrev pub readable : Readable w h p db current
  readable = record {
    object = table.object;
    at_object = table.at_object;
    is_open = table.is_open;
    at_db = table.at_db;
    at_structure = table.at_structure;
    found = table.found;
  }

  -- A call that changes no more than transactions and rows leaves a table.
  pub written-IsTable :
      (F : ℕ → Option IndexStructure) (e' : B.Env) (rows' : List Row)
      → IsTouched p current F
      → L.rows db e' ≡ rows'
      → IsSorted s.type rows'
      → IsTable h p db s L (record w { structures = F; env = e' }) rows'
  written-IsTable F e' rows' touched final sorted = record {
    object = table.object;
    at_object = table.at_object;
    is_open = table.is_open;
    at_db = table.at_db;
    at_structure = table.at_structure;
    transactions = touched.0;
    found = touched.1;
    writable = table.writable;
    same_rows = final;
    sorted = sorted;
  }
