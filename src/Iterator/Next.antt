-- ===== src/Iterator/Next.antt =====
-- One call of `Iterator::Next` (example/Iterator.cc), against the rows behind the cursor.
use oxford_sigmod.Base.{
  ℕ, zero, suc, ◌<◌, Bool, true, false, not, Option, some, List, [], ◌∷◌, ◌++◌, ◌≡◌, ◌≢◌, refl,
  arith, sym, ◌∙◌, length, All, Ordering, append-nil, if◌then◌else◌,
}
use oxford_sigmod.Bdb.{Bdb, Dbt, Row, success, not_found, db_next, db_set_range, GetFlag}
use oxford_sigmod.Bdb.Laws.{Scan, Cursors, contents, unwind, start}
use oxford_sigmod.Structure.{IndexStructure, compare_dbts, below}
use oxford_sigmod.World.{World, Index, Iterator, Outcome, returned, update}
use oxford_sigmod.Iterator.{next, fetch}
use oxford_sigmod.Index.Scan.{seek-first, seek-none, push, unwind-push}
use oxford_sigmod.Iterator.Loop.{
  at_row, first_of_rows, rows_after, next_record-found, next_record-ends, ended, no_row_left,
}
use oxford_sigmod.Iterator.Range.{InRange, bounds_of-inside, All-out, All-IsSkipped}

-- What `Next` reads: the iterator, its cursor, and the structure of its index.
pub record Reads {B : Bdb} (w : World B) (it c : ℕ) (i : Iterator) (s : IndexStructure)
    : Type 0 where
  pub at_iterator : w.iterators it ≡ some i
  pub at_cursor : i.cursor ≡ some c
  pub object : Index
  pub structure : ℕ
  pub at_object : w.objects i.index ≡ some object
  pub at_structure : object.structure ≡ some structure
  pub found : w.structures structure ≡ some s
  pub counts : length i.max_key ≡ length s.type

module _ {B : Bdb} {w : World B} {it c : ℕ} {i : Iterator} {s : IndexStructure}
    (reads : Reads w it c i s) (L : Cursors B (below s.type)) (db : ℕ) where
  open L use {On, gets, rows, on_rows}

  abbrev flag : GetFlag
  flag = if i.initialized then db_next else db_set_range

  -- The first `get` stops at the row `t`.
  abbrev Fetches : Row → List Row → Type 0
  Fetches t ahead =
      (e' : B.Env) × (z : Scan) × (fetch it i flag w ≡ (
        returned (success, at_row i t),
        record w { env = e'; iterators = update w.iterators it (some (at_row i t)) },
      ))
      × On db c (record { passed = z.passed; at_key = z.at_key; ahead = ahead }) e'
      × (unwind z.passed ahead ≡ rows db w.env)

  -- The rows that a call of `Next` has before it: those after the cursor, or, in the first call, those
  -- from the first row on whose key is not below the iterator's key.
  pub data Pending (ahead : List Row) : Type 0 where
    later :
        (passed : List Row) (k : Dbt)
        → i.initialized ≡ true
        → On db c (record { passed = passed; at_key = k; ahead = ahead }) w.env
        → Pending ahead
    from_start :
        (lower : List Row)
        → i.initialized ≡ false
        → On db c (start (lower ++ ahead)) w.env
        → All (λ x. not (below s.type x.key i.key) ≡ false) lower
        → All (λ x. not (below s.type x.key i.key) ≡ true) ahead
        → Pending ahead

  fetch-Fetches : (t : Row) (ahead : List Row) → Pending (t ∷ ahead) → Fetches t ahead
  unfolding fetch
  fetch-Fetches t ahead (later passed k init on) =
      let (e', got, on') = gets db_next i.key i.value on in
      (
        e',
        record { passed = t ∷ passed; at_key = t.key; ahead = ahead },
        ground (arith, got, init, reads.at_cursor),
        on',
        sym (on_rows on),
      )
  fetch-Fetches t ahead (from_start lower init on low high) =
      let hit = seek-first (λ x. not (below s.type x.key i.key)) lower t ahead [] low high.0 in
      let (e', got, on') = gets db_set_range i.key i.value on in
      (
        e',
        record { passed = t ∷ push lower []; at_key = t.key; ahead = ahead },
        ground (arith, got, hit, init, reads.at_cursor),
        rw hit at on',
        unwind-push lower [] (t ∷ ahead) ∙ sym (on_rows on),
      )

  split_rows :
      (skipped : List Row) (x : Row) (rest : List Row)
      → skipped ++ x ∷ rest ≡ first_of_rows skipped x ∷ rows_after skipped x rest
  split_rows [] x rest = refl
  split_rows (y ∷ skipped) x rest = refl

  -- If the rows that `Next` has before it are `skipped`, then `x` in range, then `rest`, it
  -- returns true, and the iterator stands at `x` with `rest` before it. Every row of `skipped` is
  -- out of range and not after `x` in the order of keys, the bound has as many attributes as the
  -- index, the fuel exceeds the number of rows skipped, and Berkeley DB meets no lock conflict.
  pub next-finds :
      (fuel : ℕ) (skipped : List Row) (x : Row) (rest : List Row)
      → length skipped < fuel
      → Pending (skipped ++ x ∷ rest)
      → InRange s.type i.max_key x
      → All
          (λ y.
            (¬ InRange s.type i.max_key y) × (compare_dbts s.type y.key x.key ≢ some Ordering.gt))
          skipped
      → (F : ℕ → Option Iterator) × (e' : B.Env) × (z : Scan) × (next fuel it w
          ≡ (returned true, record w { iterators = F; env = e' }))
        × (F it ≡ some (at_row i x))
        × On db c z e'
        × (z.ahead ≡ rest)
        × (contents z ≡ rows db w.env)
  unfolding next
  next-finds fuel skipped x rest enough pending fits out =
      let (e1, z1, fetched, on1, all_rows) =
        fetch-Fetches (first_of_rows skipped x) (rows_after skipped x rest)
          (rw (split_rows skipped x rest) at pending) in
      let w1 : World B = record w {
        env = e1;
        iterators = update w.iterators it (some (at_row i (first_of_rows skipped x)));
      } in
      let (F, e2, z2, ran, kept, on2, behind, same) =
        next_record-found L db c s.type it fuel z1.passed z1.at_key skipped x rest i w1 enough
          reads.at_cursor (ground arith) on1
          (All-IsSkipped s.type i.max_key reads.counts skipped x out fits)
          (bounds_of-inside s.type i.max_key reads.counts x fits) in
      (
        F,
        e2,
        z2,
        ground (
          arith, fetched, ran, reads.at_iterator, reads.at_object, reads.at_structure, reads.found,
        ),
        kept,
        on2,
        behind,
        same ∙ all_rows,
      )

  abbrev fetched_nothing : Iterator
  fetched_nothing = record i { initialized = true }

  fetch-end :
      Pending []
      → (e' : B.Env) × (z : Scan) × (fetch it i flag w ≡ (
        returned (not_found, fetched_nothing),
        record w { env = e'; iterators = update w.iterators it (some fetched_nothing) },
      ))
        × On db c z e'
        × (contents z ≡ rows db w.env)
  unfolding fetch
  fetch-end (later passed k init on) =
      let (e', got, on') = gets db_next i.key i.value on in
      (
        e',
        record { passed = passed; at_key = k; ahead = [] },
        ground (arith, got, init, reads.at_cursor),
        on',
        sym (on_rows on),
      )
  fetch-end (from_start lower init on low high) =
      let miss =
        seek-none (λ x. not (below s.type x.key i.key)) (lower ++ []) []
          (rw (append-nil lower) low) in
      let (e', got, on') = gets db_set_range i.key i.value on in
      (
        e',
        start (lower ++ []),
        ground (arith, got, miss, init, reads.at_cursor),
        rw miss at on',
        sym (on_rows on),
      )

  -- The iterator after a call of `Next` that found no further record in range.
  abbrev EndsWith : List Row → (World B → Outcome Bool × World B) → Type 0
  EndsWith all_rows call =
      (F : ℕ → Option Iterator) × (e' : B.Env) × (j : Iterator) × (call w
        ≡ (returned true, record w { iterators = F; env = e' }))
      × (F it ≡ some (ended j))
      × (rows db e' ≡ all_rows)

  -- If no row that `Next` has before it is in range, it returns true, and leaves the iterator
  -- ended with its cursor closed, and the rows of the index as they were. The fuel exceeds the
  -- number of those rows, the bound has as many attributes as the index, and Berkeley DB meets no
  -- lock conflict.
  pub next-ends :
      (fuel : ℕ) (ahead : List Row)
      → length ahead < fuel
      → Pending ahead
      → All (λ y. ¬ InRange s.type i.max_key y) ahead
      → EndsWith (rows db w.env) (next fuel it)
  unfolding next
  next-ends zero [] enough pending out = absurd (omega arith)
  next-ends (suc fuel) [] enough pending out =
      let (e1, z, fetched, on1, same) = fetch-end pending in
      let w1 : World B = record w {
        env = e1;
        iterators = update w.iterators it (some fetched_nothing);
      } in
      let (F, e2, j, ran, kept, final) =
        no_row_left L db c s.type it fuel fetched_nothing z w1 reads.at_cursor on1 in
      (
        F,
        e2,
        j,
        ground (
          arith, fetched, ran, reads.at_iterator, reads.at_object, reads.at_structure, reads.found,
        ),
        kept,
        final ∙ same,
      )
  next-ends fuel (y ∷ ahead) enough pending out =
      let (e1, z1, fetched, on1, same) = fetch-Fetches y ahead pending in
      let w1 : World B = record w {
        env = e1;
        iterators = update w.iterators it (some (at_row i y));
      } in
      let outside = All-out s.type i.max_key reads.counts (y ∷ ahead) out in
      let (F, e2, j, ran, kept, final) =
        next_record-ends L db c s.type it fuel z1.passed z1.at_key y ahead i w1 enough
          reads.at_cursor on1 outside.0 outside.1 in
      (
        F,
        e2,
        j,
        ground (
          arith, fetched, ran, reads.at_iterator, reads.at_object, reads.at_structure, reads.found,
        ),
        kept,
        final ∙ same,
      )
