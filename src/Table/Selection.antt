-- ===== src/Table/Selection.antt =====
-- A selection on a table: GetRecords, the calls of GetNext, and CloseIterator (example/BDBImpl.cc and
-- example/Iterator.cc).
use oxford_sigmod.Base.{
  ℕ, suc, ◌<◌, true, false, Option, none, some, List, ◌≡◌, arith, sym, ap, ◌∙◌, map, length,
  Bool-cases, inl, inr,
}
use mathlib.Core.Path.{subst}
use oxford_sigmod.Types.{ErrorCode, k_ok, Key, Record}
use oxford_sigmod.Bdb.{Bdb, Row}
use oxford_sigmod.Bdb.Laws.{Cursors}
use oxford_sigmod.Structure.{IndexStructure, below, get_bdb_key}
use oxford_sigmod.World.{World, Iterator, returned, update}
use oxford_sigmod.Iterator.Rows.{IsSorted, filter, selected}
use oxford_sigmod.Iterator.Loop.{ended}
use oxford_sigmod.Iterator.{close_iterator}
use oxford_sigmod.Api.{end_iterator, close_open}
use oxford_sigmod.Api.Iteration.{record_of}
use oxford_sigmod.Api.RangeQuery.{get_records-scans}
use oxford_sigmod.Table.{selection, select, serve}
use oxford_sigmod.Table.State.{IsTable, readable}

-- Closing an iterator that is at its end changes nothing but iterators.
end_iterator-ended :
    {B : Bdb} (w : World B) (it : ℕ) (j : Iterator)
    → w.iterators it ≡ some (ended j)
    → (c : ErrorCode) × (F : ℕ → Option Iterator) × (end_iterator (some (some it)) w
        ≡ (returned (c, some none), record w { iterators = F }))
unfolding end_iterator close_open close_iterator
end_iterator-ended w it j at = elim (Bool-cases j.closed) [
  | inl shut ↦
      (ErrorCode.k_error_iterator_closed, update w.iterators it none, ground (arith, at, shut))
  | inr open_iterator ↦
      let gone : Iterator = record (ended j) { cvalue = none; closed = true } in
      (k_ok, update (update w.iterators it (some gone)) it none, ground (arith, at, open_iterator))
]

module _ {B : Bdb} {h p db : ℕ} {s : IndexStructure} {L : Cursors B (below s.type)} {w : World B}
    {rows : List Row} (table : IsTable h p db s L w rows) where
  -- A call that changes no more than iterators leaves the table.
  scanned-IsTable :
      (F : ℕ → Option Iterator) (e' : B.Env) (n : ℕ)
      → L.rows db e' ≡ L.rows db w.env
      → IsTable h p db s L (record w { iterators = F; env = e'; next_iterator = n }) rows
  scanned-IsTable F e' n same = record {
    object = table.object;
    at_object = table.at_object;
    is_open = table.is_open;
    at_db = table.at_db;
    at_structure = table.at_structure;
    transactions = table.transactions;
    found = table.found;
    writable = table.writable;
    same_rows = same ∙ table.same_rows;
    sorted = table.sorted;
  }

  -- The records of the selected rows.
  abbrev pub selected_records : Key → Key → List Record
  selected_records min max =
      map (record_of s) (filter (selected s.type (get_bdb_key s.type min false) max) rows)

  pub select-Answers :
      (calls fuel : ℕ) (tx : Option ℕ) (min max : Key)
      → length min ≡ length s.type
      → length max ≡ length s.type
      → length rows < calls
      → length rows < fuel
      → (w' : World B) × (serve calls fuel tx h (select min max) w
          ≡ (returned (selection (selected_records min max)), w'))
        × IsTable h p db s L w' rows
  unfolding serve
  select-Answers calls fuel tx min max min_fits max_fits few enough =
      let key = get_bdb_key s.type min false in
      let same_length = ap length table.same_rows in
      let (it, w1, w2, got, fetched, (F, e', heap, kept), j, at_end) =
        get_records-scans (readable table) L tx min max none calls fuel min_fits max_fits
          (subst (IsSorted s.type) (sym table.same_rows) table.sorted) (omega arith)
          (omega arith) in
      let (c, G, closed) = end_iterator-ended w2 it j at_end in
      let chosen =
        ap (λ all_rows. map (record_of s) (filter (selected s.type key max) all_rows))
          table.same_rows in
      (
        record w { iterators = G; env = e'; next_iterator = suc w.next_iterator },
        ground (arith, got, fetched, closed, heap, chosen),
        scanned-IsTable G e' (suc w.next_iterator) kept,
      )
