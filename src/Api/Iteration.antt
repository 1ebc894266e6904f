-- ===== src/Api/Iteration.antt =====
-- GetNext over the rows behind the cursor (example/BDBImpl.cc and example/Iterator.cc).
use oxford_sigmod.Base.{
  ℕ, ◌<◌, true, false, Option, none, some, List, ◌∷◌, ◌++◌, ◌≡◌, ◌≢◌, refl, arith, length, All,
  Ordering,
}
use oxford_sigmod.Types.{ErrorCode, k_ok, k_error_not_found, Record}
use oxford_sigmod.Bdb.{Bdb, Row}
use oxford_sigmod.Bdb.Laws.{Scan, Cursors}
use oxford_sigmod.Structure.{IndexStructure, below, get_key, compare_dbts}
use oxford_sigmod.World.{World, Index, Iterator, returned, update}
use oxford_sigmod.Iterator.{next, value}
use oxford_sigmod.Iterator.Loop.{at_row, ended}
use oxford_sigmod.Iterator.Range.{InRange}
use oxford_sigmod.Iterator.Next.{Reads, Pending, next-finds, next-ends}
use oxford_sigmod.Api.{Cell, get_next, fetch_record}

-- The record that a row stands for.
abbrev pub record_of : IndexStructure → Row → Record
record_of s x = record { key = get_key s.type x.key; payload = x.value }

module _ {B : Bdb} where
  pub value-runs :
      (w : World B) (it : ℕ) (i : Iterator) (s : IndexStructure) (object : Index) (p : ℕ)
      → w.iterators it ≡ some i
      → i.end ≡ false
      → w.objects i.index ≡ some object
      → object.structure ≡ some p
      → w.structures p ≡ some s
      → let r : Record = record { key = get_key s.type i.key; payload = i.value } in
        value it w ≡ (
          returned (some r),
          record w { iterators = update w.iterators it (some (record i { cvalue = some r })) },
        )
  unfolding value
  value-runs w it i s object p at going at_object at_structure found =
      ground (arith, at, going, at_object, at_structure, found)

  pub fetch_record-found :
      (fuel it : ℕ) (old : Option Record) (w w1 w2 : World B) (i : Iterator) (r : Record)
      → next fuel it w ≡ (returned true, w1)
      → w1.iterators it ≡ some i
      → i.end ≡ false
      → value it w1 ≡ (returned (some r), w2)
      → fetch_record fuel it old w ≡ (returned (k_ok, some (some r)), w2)
  unfolding fetch_record
  fetch_record-found fuel it old w w1 w2 i r moved at going valued =
      ground (arith, moved, at, going, valued)

  fetch_record-ended :
      (fuel it : ℕ) (old : Option Record) (w w1 : World B) (i : Iterator)
      → next fuel it w ≡ (returned true, w1)
      → w1.iterators it ≡ some i
      → i.end ≡ true
      → fetch_record fuel it old w ≡ (returned (k_error_not_found, some none), w1)
  unfolding fetch_record
  fetch_record-ended fuel it old w w1 i moved at stopped = ground (arith, moved, at, stopped)

  pub get_next-open :
      (fuel it : ℕ) (old : Option Record) (w w1 : World B) (i : Iterator)
      (result : ErrorCode × Cell Record)
      → w.iterators it ≡ some i
      → i.closed ≡ false
      → fetch_record fuel it old w ≡ (returned result, w1)
      → get_next fuel (some it) (some old) w ≡ (returned result, w1)
  unfolding get_next
  get_next-open fuel it old w w1 i result at open_iterator fetched =
      ground (arith, at, open_iterator, fetched)

module _ {B : Bdb} {w : World B} {it c : ℕ} {i : Iterator} {s : IndexStructure}
    (reads : Reads w it c i s) (L : Cursors B (below s.type)) (db : ℕ)
    (open_iterator : i.closed ≡ false) (old : Option Record) where
  open L use {On, rows}

  -- If the rows that an open iterator has before it are `skipped`, then `x` in range, then `rest`,
  -- GetNext returns kOk with the decoded key and the value of `x`, and the cursor has `rest` before
  -- it. The iterator has not ended. Every row of `skipped` is out of range and not after `x` in the
  -- order of keys, the bound has as many attributes as the index, the fuel exceeds the number of
  -- rows skipped, and Berkeley DB meets no lock conflict.
  pub get_next-finds :
      (fuel : ℕ) (skipped : List Row) (x : Row) (rest : List Row)
      → i.end ≡ false
      → length skipped < fuel
      → Pending reads L db (skipped ++ x ∷ rest)
      → InRange s.type i.max_key x
      → All
          (λ y.
            (¬ InRange s.type i.max_key y) × (compare_dbts s.type y.key x.key ≢ some Ordering.gt))
          skipped
      → (w' : World B) × (z : Scan) × (get_next fuel (some it) (some old) w
          ≡ (returned (k_ok, some (some (record_of s x))), w'))
        × On db c z w'.env
        × (z.ahead ≡ rest)
  get_next-finds fuel skipped x rest going enough pending fits out =
      let (F, e', z, ran, kept, on, behind, _) =
        next-finds reads L db fuel skipped x rest enough pending fits out in
      let w1 : World B = record w { iterators = F; env = e' } in
      let w2 : World B = record w1 {
        iterators = update F it (some (record (at_row i x) { cvalue = some (record_of s x) }));
      } in
      let valued =
        value-runs w1 it (at_row i x) s reads.object reads.structure kept going reads.at_object
          reads.at_structure reads.found in
      (
        w2,
        z,
        get_next-open fuel it old w w2 i _ reads.at_iterator open_iterator (
            fetch_record-found fuel it old w w1 w2 (at_row i x) (record_of s x) ran kept going
              valued),
        on,
        behind,
      )

  pub get_next-ended :
      (fuel : ℕ) (ahead : List Row)
      → length ahead < fuel
      → Pending reads L db ahead
      → All (λ y. ¬ InRange s.type i.max_key y) ahead
      → (F : ℕ → Option Iterator) × (e' : B.Env) × (j : Iterator) × (get_next fuel
            (some it)
            (some old)
            w
          ≡ (returned (k_error_not_found, some none), record w { iterators = F; env = e' }))
        × (F it ≡ some (ended j))
        × (rows db e' ≡ rows db w.env)
  get_next-ended fuel ahead enough pending out =
      let (F, e', j, ran, kept, final) = next-ends reads L db fuel ahead enough pending out in
      let w1 : World B = record w { iterators = F; env = e' } in
      (
        F,
        e',
        j,
        get_next-open fuel it old w w1 i _ reads.at_iterator open_iterator
            (fetch_record-ended fuel it old w w1 (ended j) ran kept refl),
        kept,
        final,
      )

  -- If no row that an open iterator has before it is in range, GetNext returns kErrorNotFound and
  -- a NULL record, the iterator is ended with its cursor closed, and the rows of the index are as
  -- they were. The fuel exceeds the number of those rows, the bound has as many attributes as the
  -- index, and Berkeley DB meets no lock conflict.
  pub get_next-ends :
      (fuel : ℕ) (ahead : List Row)
      → length ahead < fuel
      → Pending reads L db ahead
      → All (λ y. ¬ InRange s.type i.max_key y) ahead
      → (w' : World B) × (j : Iterator) × (get_next fuel (some it) (some old) w
          ≡ (returned (k_error_not_found, some none), w'))
        × (w'.iterators it ≡ some (ended j))
        × (rows db w'.env ≡ rows db w.env)
  get_next-ends fuel ahead enough pending out =
      let (F, e', j, ran, kept, final) = get_next-ended fuel ahead enough pending out in
      (record w { iterators = F; env = e' }, j, ran, kept, final)
