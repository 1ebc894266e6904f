-- ===== src/Tests.antt =====
-- A small environment of Berkeley DB, an index over two short attributes with three records, and
-- calls on it.
pub mod Keys
pub mod Calls
pub mod Rows
pub mod Interface
pub mod Runs
pub mod Queries
pub mod Options
pub mod Tables
use oxford_sigmod.Base.{
  ℕ, Bool, true, false, Option, none, some, List, [], ◌∷◌, ◌≡◌, refl, ap, ◌∙◌, String,
  if◌then◌else◌, ◌==◌,
}
use oxford_sigmod.Types.{AttributeType, k_short, Attribute, Key, Record}
use oxford_sigmod.Bdb.{
  Bdb, Dbt, Row, GetFlag, Code, success, not_found, Reply, done, raise, deadlock_exception,
}
use oxford_sigmod.Bdb.Laws.{put_row, Scan, Cursors, start, contents, row_at, moved, target}
use oxford_sigmod.Structure.{IndexStructure, below}
use oxford_sigmod.World.{World, Index, Iterator}

-- One database and one cursor.
abbrev pub scan_bdb : (Dbt → Dbt → Bool) → Bdb
scan_bdb less = record {
  Env = Scan;
  txn_begin = λ tx e. (done 7, e);
  txn_commit = λ t e. (done tt, e);
  txn_abort = λ t e. (done tt, e);
  db_create = λ e. (done 0, e);
  db_open = λ db name new e. (done tt, e);
  db_close = λ db e. (done tt, e);
  db_destroy = λ db e. e;
  db_remove = λ name e. (done tt, e);
  db_put = λ db tx k v e.
      (done success, start (put_row less (record { key = k; value = v }) (contents e)));
  db_cursor = λ db tx e. (done 0, start (contents e));
  cursor_get = λ c flag k v e. (
    done (row_at (record { key = k; value = v }) (target less flag k v e)),
    moved e (target less flag k v e),
  );
  cursor_put_current = λ c k v e. elim e.passed [
    | [] ↦ (done not_found, e)
    | r ∷ p ↦ (done success, record e { passed = record r { value = v } ∷ p })
  ];
  cursor_del = λ c e. elim e.passed [
    | [] ↦ (done not_found, e)
    | r ∷ p ↦ (done success, record e { passed = p })
  ];
  cursor_close = λ c e. (done tt, e);
}

pub scan_deletes :
    (less : Dbt → Dbt → Bool) (e : Scan) (r : Row) (p : List Row)
    → e.passed ≡ r ∷ p
    → (scan_bdb less).cursor_del 0 e ≡ (done success, record e { passed = p })
scan_deletes less e r p h = rw h refl

pub scan_puts :
    (less : Dbt → Dbt → Bool) (e : Scan) (k v : Dbt) (r : Row) (p : List Row)
    → e.passed ≡ r ∷ p
    → (scan_bdb less).cursor_put_current 0 k v e
      ≡ (done success, record e { passed = record r { value = v } ∷ p })
scan_puts less e k v r p h = rw h refl

abbrev pub scan_cursors : (less : Dbt → Dbt → Bool) → Cursors (scan_bdb less) less
scan_cursors less = record {
  rows = λ db e. contents e;
  On = λ db c z e. e ≡ z;
  on_rows = λ on. ap contents on;
  begins = λ db tx e. (7, e, refl, refl);
  commits = λ db t e. (e, refl, refl);
  stores = λ db tx k v e.
      (start (put_row less (record { key = k; value = v }) (contents e)), refl, refl);
  opens = λ db tx e. (0, start (contents e), refl, refl);
  gets = λ {db} {c} {z} {e} flag k v on. (
    moved e (target less flag k v e),
    ap
        (λ (x : Scan). (
          done (row_at (record { key = k; value = v }) (target less flag k v x)),
          moved e (target less flag k v e),
        ))
        on,
    ap (λ (x : Scan). moved x (target less flag k v x)) on,
  );
  deletes = λ {db} {c} {z} {e} r p h on. (
    record e { passed = p },
    scan_deletes less e r p (ap (λ (x : Scan). x.passed) on ∙ h),
    ap (λ (x : Scan). record x { passed = p }) on,
  );
  puts = λ {db} {c} {z} {e} k v r p h on. (
    record e { passed = record r { value = v } ∷ p },
    scan_puts less e k v r p (ap (λ (x : Scan). x.passed) on ∙ h),
    ap (λ (x : Scan). record x { passed = record r { value = v } ∷ p }) on,
  );
  closes = λ {db} {c} {z} {e} on. (e, refl, refl);
}

abbrev pub short : ℕ → Attribute
short v = record { type = k_short; bytes = v ∷ 0 ∷ 0 ∷ 0 ∷ [] }

abbrev pub pair : ℕ → ℕ → Key
pair a b = some (short a) ∷ some (short b) ∷ []

abbrev pub row : ℕ → ℕ → Row
row a b = record { key = a ∷ 0 ∷ 0 ∷ 0 ∷ b ∷ 0 ∷ 0 ∷ 0 ∷ []; value = 5 ∷ [] }

abbrev pub kinds : List AttributeType
kinds = k_short ∷ k_short ∷ []

abbrev pub small : Bdb
small = scan_bdb (below kinds)

abbrev pub cursors : Cursors small (below kinds)
cursors = scan_cursors (below kinds)

-- Transaction 3 has written to the second index.
abbrev pub structure : List ℕ → IndexStructure
structure transactions = record {
  type = kinds;
  size = 8;
  read_only = false;
  handles = 0 ∷ [];
  transactions = transactions;
}

abbrev pub handle : Bool → Index
handle closed = record {
  db = some 0;
  name = "a";
  structure = some 0;
  closed = closed;
  iterators = [];
}

-- An iterator from (1, 1) to (2, 4), at the start or behind its first record.
abbrev pub iterator : Bool → Iterator
iterator initialized = record {
  cvalue = none;
  key = (row 1 1).key;
  value = [];
  max_key = pair 2 4;
  min_key = pair 1 1;
  index = 0;
  cursor = some 0;
  closed = false;
  end = false;
  initialized = initialized;
}

-- The records (1, 1), (1, 9), (2, 1) and (3, 1). Handle 1 is closed.
abbrev pub world : Bool → World small
world initialized = record {
  env = start (row 1 1 ∷ row 1 9 ∷ row 2 1 ∷ row 3 1 ∷ []);
  structures = λ p. if p == 0 then some (structure []) else some (structure (3 ∷ []));
  indices = ("a", 0) ∷ ("b", 1) ∷ [];
  objects = λ h. some (handle (h == 1));
  next_structure = 2;
  next_object = 2;
  iterators = λ it. some (iterator initialized);
  next_iterator = 1;
}

abbrev pub rec : ℕ → ℕ → Record
rec a b = record { key = pair a b; payload = 5 ∷ [] }
