-- ===== src/Iterator.antt =====
-- class Iterator (example/Iterator.cc): a Berkeley DB cursor with a filter by the maximum key. The
-- loop of `Next` takes fuel.
pub mod Loop
pub mod Range
pub mod Next
pub mod Rows
pub mod Order
use oxford_sigmod.Base.{
  ℕ, suc, zero, Bool, true, false, Option, none, some, List, [], if◌then◌else◌, ◌==◌,
}
use oxford_sigmod.Types.{AttributeType, Key, Record}
use oxford_sigmod.Util.{check_bounds, Bounds, inside, exceeds, copy_key}
use oxford_sigmod.Bdb.{
  Bdb, Dbt, Row, Code, success, not_found, failure, GetFlag, db_set_range, db_next,
}
use oxford_sigmod.Structure
use oxford_sigmod.Structure.{IndexStructure, get_key}
use oxford_sigmod.World.{
  World, Index, Iterator, Outcome, M, ◌>>=◌, ◌>>◌, pure, fail, or_fail, bdb, structure_at,
  object_at, iterator_at, set_iterator, update,
}
use oxford_sigmod.Index.{index_bdb_key, is_success}

abbrev pub is_not_found : Code → Bool
is_not_found success = false
is_not_found not_found = true
is_not_found (failure _) = false

module _ {B : Bdb} where
  -- The types of the index's structure, which `GetKey` and `GetBDBKey` read.
  abbrev pub index_types : ℕ → M B (List AttributeType)
  index_types h = do i ← object_at h; p ← or_fail i.structure; s ← structure_at p; pure s.type

  -- The fields as the constructor sets them.
  unfoldable pub allocate_iterator : ℕ → Key → Key → ℕ → Dbt → M B ℕ
  unfolding copy_key
  allocate_iterator h min_keys max_keys cursor key w = (
    Outcome.returned w.next_iterator,
    record w {
      iterators = update w.iterators w.next_iterator (
          some (record {
            cvalue = none;
            key = key;
            value = [];
            max_key = copy_key max_keys;
            min_key = copy_key min_keys;
            index = h;
            cursor = some cursor;
            closed = false;
            end = false;
            initialized = false;
          }));
      next_iterator = suc w.next_iterator;
    },
  )

  -- The constructor. `Index::Cursor` opens a Berkeley DB cursor.
  unfoldable pub new_iterator : Option ℕ → ℕ → Key → Key → M B ℕ
  unfolding index_bdb_key allocate_iterator
  new_iterator tx h min_keys max_keys = do
    i ← object_at h
    db ← or_fail i.db
    cursor ← bdb (B.db_cursor db tx)
    types ← index_types h
    allocate_iterator h min_keys max_keys cursor (index_bdb_key types min_keys false)

  -- `CloseCursor`; returns the iterator as it is then.
  unfoldable pub close_cursor : ℕ → Iterator → M B Iterator
  close_cursor it i = elim i.cursor [
    | none ↦ pure i
    | some c ↦ do
      bdb (B.cursor_close c)
      set_iterator it (some (record i { cursor = none }))
      pure (record i { cursor = none })
  ]

  -- `SetEnded`
  unfoldable pub set_ended : ℕ → Iterator → M B Iterator
  unfolding close_cursor
  set_ended it i = do
    set_iterator it (some (record i { end = true }))
    close_cursor it (record i { end = true })

  -- `Close`. The keys and the two `Dbt`s are freed.
  unfoldable pub close_iterator : ℕ → Iterator → M B Iterator
  unfolding close_cursor
  close_iterator it i = do
    set_iterator it (some (record i { cvalue = none; closed = true }))
    close_cursor it (record i { cvalue = none; closed = true })

  -- A call of `get` into `key_` and `value_`.
  unfoldable pub fetch : ℕ → Iterator → GetFlag → M B (Code × Iterator)
  fetch it i flag = do
    c ← or_fail i.cursor
    (err, row) ← bdb (B.cursor_get c flag i.key i.value)
    set_iterator it (some (record i { key = row.key; value = row.value; initialized = true }))
    pure (err, record i { key = row.key; value = row.value; initialized = true })

  -- No record could be fetched.
  unfoldable pub next_failed : ℕ → Code → Iterator → M B Bool
  unfolding set_ended close_iterator
  next_failed it err i = do
    j ← set_ended it i
    elim (is_not_found err) [
      | true ↦ pure true
      | false ↦ do closed_iterator ← close_iterator it j; pure false
    ]

  -- The `while(true)` of `Next`.
  unfoldable pub next_record : ℕ → List AttributeType → ℕ → Code → Iterator → M B Bool
  unfolding set_ended next_failed fetch
  next_record zero types it err i = fail
  next_record (suc fuel) types it err i = elim (is_success err) [
    | false ↦ next_failed it err i
    | true ↦ do
      bounds ← or_fail (check_bounds (get_key types i.key) i.max_key)
      elim bounds [
        | inside ↦ pure true
        | exceeds index ↦ elim (index == 0) [
          | true ↦ do ended ← set_ended it i; pure true
          | false ↦ do (err', j) ← fetch it i db_next; next_record fuel types it err' j
        ]
      ]
  ]

  -- `Iterator::Next`
  unfoldable pub next : ℕ → ℕ → M B Bool
  unfolding next_record fetch
  next fuel it = do
    i ← iterator_at it
    (err, j) ← fetch it i (if i.initialized then db_next else db_set_range)
    types ← index_types i.index
    next_record fuel types it err j

  -- `Iterator::value`: NULL at the end.
  unfoldable pub value : ℕ → M B (Option Record)
  unfolding get_key
  value it = do
    i ← iterator_at it
    elim i.end [
      | true ↦ do set_iterator it (some (record i { cvalue = none })); pure none
      | false ↦ do
        types ← index_types i.index
        let r : Record = record { key = get_key types i.key; payload = i.value }
        set_iterator it (some (record i { cvalue = some r }))
        pure (some r)
    ]
