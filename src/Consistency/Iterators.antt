-- ===== src/Consistency/Iterators.antt =====
-- Iterators, against the invariant of the heap (example/Iterator.cc).
use oxford_sigmod.Base.{
  ℕ, zero, suc, Bool, true, false, Option, none, some, List, ◌==◌, if◌then◌else◌,
}
use oxford_sigmod.Types.{Key, Record, AttributeType}
use oxford_sigmod.Util.{check_bounds, Bounds, inside, exceeds}
use oxford_sigmod.Bdb.{Bdb, Dbt, Code, GetFlag, db_next, db_set_range}
use oxford_sigmod.Structure.{get_key}
use oxford_sigmod.World.{Iterator, M}
use oxford_sigmod.Index.{index_bdb_key, is_success}
use oxford_sigmod.Iterator.{
  is_not_found, allocate_iterator, new_iterator, close_cursor, set_ended, close_iterator, fetch,
  next_failed, next_record, next, value,
}
use oxford_sigmod.Consistency.Invariant.{Keeps}
use oxford_sigmod.Consistency.Keeping.{
  Kept, ◌>>=◌, ◌>>◌, pure, or_fail, bdb, structure_at, object_at, iterator_at, set_iterator,
  on_test, on_option,
}

module _ {B : Bdb} where
  abbrev types_kept : ℕ → Kept B (List AttributeType)
  types_kept h = do i ← object_at h; p ← or_fail i.structure; s ← structure_at p; pure s.type

  allocate_iterator-Keeps :
      (h : ℕ) (min_keys max_keys : Key) (cursor : ℕ) (key : Dbt)
      → Keeps {B = B} (allocate_iterator h min_keys max_keys cursor key)
  unfolding allocate_iterator
  allocate_iterator-Keeps h min_keys max_keys cursor key w c = (c, tt)

  pub new_iterator-Keeps :
      (tx : Option ℕ) (h : ℕ) (min_keys max_keys : Key)
      → Keeps {B = B} (new_iterator tx h min_keys max_keys)
  unfolding new_iterator
  new_iterator-Keeps tx h min_keys max_keys =
      (do
        i ← object_at h
        db ← or_fail i.db
        cursor ← bdb (B.db_cursor db tx)
        types ← types_kept h
        (
          allocate_iterator h min_keys max_keys cursor (index_bdb_key types min_keys false),
          allocate_iterator-Keeps h min_keys max_keys cursor (index_bdb_key types min_keys false),
        )).1

  close_cursor-Keeps : (it : ℕ) (i : Iterator) → Keeps {B = B} (close_cursor it i)
  unfolding close_cursor
  close_cursor-Keeps it i =
      (on_option i.cursor (pure i) λ c. (do
        bdb (B.cursor_close c)
        set_iterator it (some (record i { cursor = none }))
        pure (record i { cursor = none }))).1

  set_ended-Keeps : (it : ℕ) (i : Iterator) → Keeps {B = B} (set_ended it i)
  unfolding set_ended
  set_ended-Keeps it i =
      (do
        set_iterator it (some (record i { end = true }))
        (
          close_cursor it (record i { end = true }),
          close_cursor-Keeps it (record i { end = true }),
        )).1

  pub close_iterator-Keeps : (it : ℕ) (i : Iterator) → Keeps {B = B} (close_iterator it i)
  unfolding close_iterator
  close_iterator-Keeps it i =
      (do
        set_iterator it (some (record i { cvalue = none; closed = true }))
        (
          close_cursor it (record i { cvalue = none; closed = true }),
          close_cursor-Keeps it (record i { cvalue = none; closed = true }),
        )).1

  fetch-Keeps : (it : ℕ) (i : Iterator) (flag : GetFlag) → Keeps {B = B} (fetch it i flag)
  unfolding fetch
  fetch-Keeps it i flag =
      (do
        c ← or_fail i.cursor
        (err, row) ← bdb (B.cursor_get c flag i.key i.value)
        set_iterator it (some (record i { key = row.key; value = row.value; initialized = true }))
        pure (err, record i { key = row.key; value = row.value; initialized = true })).1

  next_failed-Keeps : (it : ℕ) (err : Code) (i : Iterator) → Keeps {B = B} (next_failed it err i)
  unfolding next_failed
  next_failed-Keeps it err i =
      (do
        j ← (set_ended it i, set_ended-Keeps it i)
        on_test (is_not_found err) (pure true)
            (do closed_iterator ← (close_iterator it j, close_iterator-Keeps it j); pure false)).1

  pub bounds_lem :
      (bounds : Bounds) (m : Kept B Bool) (f : ℕ → Kept B Bool)
      → Keeps {B = B} {A = Bool}
          (elim bounds as (λ _. M B Bool) [ inside ↦ m.0 | exceeds index ↦ (f index).0 ])
  bounds_lem inside m f = m.1
  bounds_lem (exceeds index) m f = (f index).1

  abbrev on_bounds : Bounds → Kept B Bool → (ℕ → Kept B Bool) → Kept B Bool
  on_bounds bounds m f = (
    elim bounds as (λ _. M B Bool) [ inside ↦ m.0 | exceeds index ↦ (f index).0 ],
    bounds_lem bounds m f,
  )

  next_record-Keeps :
      (fuel : ℕ) (types : List AttributeType) (it : ℕ) (err : Code) (i : Iterator)
      → Keeps {B = B} (next_record fuel types it err i)
  unfolding next_record
  next_record-Keeps zero types it err i w c = c
  next_record-Keeps (suc fuel) types it err i w c =
      (on_test (is_success err)
          (do
            bounds ← or_fail (check_bounds (get_key types i.key) i.max_key)
            on_bounds bounds (pure true) λ index.
                on_test (index == 0) (do ended ← (set_ended it i, set_ended-Keeps it i); pure true)
                  (do
                    (err', j) ← (fetch it i db_next, fetch-Keeps it i db_next)
                    (next_record fuel types it err' j, next_record-Keeps fuel types it err' j)))
          (next_failed it err i, next_failed-Keeps it err i)).1
        w c

  pub next-Keeps : (fuel it : ℕ) → Keeps {B = B} (next fuel it)
  unfolding next
  next-Keeps fuel it =
      (do
        i ← iterator_at it
        (err, j) ← (
          fetch it i (if i.initialized then db_next else db_set_range),
          fetch-Keeps it i (if i.initialized then db_next else db_set_range),
        )
        types ← types_kept i.index
        (next_record fuel types it err j, next_record-Keeps fuel types it err j)).1

  pub value-Keeps : (it : ℕ) → Keeps {B = B} (value it)
  unfolding value
  value-Keeps it =
      (do
        i ← iterator_at it
        on_test i.end (do set_iterator it (some (record i { cvalue = none })); pure none)
            (do
              types ← types_kept i.index
              let r : Record = record { key = get_key types i.key; payload = i.value }
              set_iterator it (some (record i { cvalue = some r }))
              pure (some r))).1
