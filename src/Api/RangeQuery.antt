-- ===== src/Api/RangeQuery.antt =====
-- GetRecords, and all the calls of GetNext on its iterator (example/BDBImpl.cc and
-- example/Iterator.cc).
use oxford_sigmod.Base.{
  ℕ, suc, ◌<◌, ◌+◌, true, false, not, Option, none, some, List, [], ◌∷◌, ◌++◌, ◌≡◌, refl, arith,
  sym, ap, ◌∙◌, length, All, map, length-append,
}
use mathlib.Core.Path.{subst}
use oxford_sigmod.Types.{k_ok, Key}
use oxford_sigmod.Util.{copy_key}
use oxford_sigmod.Bdb.{Bdb, Row, Dbt}
use oxford_sigmod.Bdb.Laws.{Cursors, start}
use oxford_sigmod.Structure.{IndexStructure, below, get_bdb_key}
use oxford_sigmod.World.{World, Index, Iterator, returned, update}
use oxford_sigmod.Index.{compatible, index_bdb_key}
use oxford_sigmod.Iterator.{allocate_iterator, new_iterator}
use oxford_sigmod.Iterator.Loop.{ended}
use oxford_sigmod.Iterator.Next.{from_start}
use oxford_sigmod.Iterator.Rows.{filter, selected, IsSorted, split_below, filter-selected}
use oxford_sigmod.Api.{get_compatible, get_records}
use oxford_sigmod.Api.Iteration.{record_of}
use oxford_sigmod.Api.Traversal.{fetch_all, delivery, Ready, fetch_all-Delivers}

-- A handle that is open on an index with a database.
pub record Readable {B : Bdb} (w : World B) (h p db : ℕ) (s : IndexStructure) : Type 0 where
  pub object : Index
  pub at_object : w.objects h ≡ some object
  pub is_open : object.closed ≡ false
  pub at_db : object.db ≡ some db
  pub at_structure : object.structure ≡ some p
  pub found : w.structures p ≡ some s

copy_key-same : (k : Key) → copy_key k ≡ k
unfolding copy_key
copy_key-same [] = refl
copy_key-same (none ∷ k) = ground (arith, copy_key-same k)
copy_key-same (some a ∷ k) = ground (arith, copy_key-same k)

-- An iterator over a fresh cursor.
abbrev pub fresh : ℕ → Key → Key → ℕ → Dbt → Iterator
fresh h min_keys max_keys c key = record {
  cvalue = none;
  key = key;
  value = [];
  max_key = max_keys;
  min_key = min_keys;
  index = h;
  cursor = some c;
  closed = false;
  end = false;
  initialized = false;
}

module _ {B : Bdb} {w : World B} {h p db : ℕ} {s : IndexStructure} (readable : Readable w h p db s)
    (L : Cursors B (below s.type)) where
  open L use {rows, opens, On, on_rows}

  compatible-runs :
      (key : Key) → length key ≡ length s.type → compatible h key w ≡ (returned true, w)
  unfolding compatible
  compatible-runs key fits =
      ground (arith, readable.at_object, readable.is_open, readable.at_structure, readable.found)

  abbrev opened_world : B.Env → Iterator → World B
  opened_world e' i = record w {
    env = e';
    iterators = update w.iterators w.next_iterator (some i);
    next_iterator = suc w.next_iterator;
  }

  new_iterator-runs :
      (tx : Option ℕ) (min_keys max_keys : Key)
      → (c : ℕ) × (e' : B.Env) × (let i =
            fresh h min_keys max_keys c (get_bdb_key s.type min_keys false) in
          new_iterator tx h min_keys max_keys w ≡ (returned w.next_iterator, opened_world e' i))
        × On db c (start (rows db w.env)) e'
  unfolding new_iterator allocate_iterator index_bdb_key
  new_iterator-runs tx min_keys max_keys =
      let (c, e', ran, on) = opens db tx w.env in
      (
        c,
        e',
        ground (
          arith,
          readable.at_object,
          readable.at_db,
          readable.at_structure,
          readable.found,
          ran,
          copy_key-same min_keys,
          copy_key-same max_keys,
        ),
        on,
      )

  get_records-runs :
      (tx : Option ℕ) (min_keys max_keys : Key) (old : Option ℕ) (w1 : World B)
      → length min_keys ≡ length s.type
      → length max_keys ≡ length s.type
      → new_iterator tx h min_keys max_keys w ≡ (returned w.next_iterator, w1)
      → get_records tx (some h) min_keys max_keys (some old) w
        ≡ (returned (k_ok, some (some w.next_iterator)), w1)
  unfolding get_records get_compatible
  get_records-runs tx min_keys max_keys old w1 min_fits max_fits ran = ground (
    arith,
    readable.at_object,
    readable.is_open,
    compatible-runs min_keys min_fits,
    compatible-runs max_keys max_fits,
    ran,
  )

  Ready-fresh :
      (c : ℕ) (e' : B.Env) (min_keys max_keys : Key) (key : Dbt) (lower ahead : List Row)
      → length max_keys ≡ length s.type
      → rows db w.env ≡ lower ++ ahead
      → All (λ x. not (below s.type x.key key) ≡ false) lower
      → All (λ x. not (below s.type x.key key) ≡ true) ahead
      → On db c (start (rows db w.env)) e'
      → Ready s L db w.next_iterator c
          (opened_world e' (fresh h min_keys max_keys c key))
          (fresh h min_keys max_keys c key)
          ahead
  Ready-fresh c e' min_keys max_keys key lower ahead fits same low high on = record {
    reads = record {
      at_iterator = ground arith;
      at_cursor = refl;
      object = readable.object;
      structure = p;
      at_object = readable.at_object;
      at_structure = readable.at_structure;
      found = readable.found;
      counts = fits;
    };
    pending =
        from_start lower refl (subst (λ all_rows. On db c (start all_rows) e') same on) low high;
    going = refl;
    open_iterator = refl;
  }

  pub get_records-scans :
      (tx : Option ℕ) (min_keys max_keys : Key) (old : Option ℕ) (calls fuel : ℕ)
      → length min_keys ≡ length s.type
      → length max_keys ≡ length s.type
      → IsSorted s.type (rows db w.env)
      → length (rows db w.env) < calls
      → length (rows db w.env) < fuel
      → (it : ℕ) × (w1 : World B) × (w2 : World B) × (get_records tx
            (some h)
            min_keys
            max_keys
            (some old)
            w
          ≡ (returned (k_ok, some (some it)), w1))
        × (fetch_all calls fuel it w1
            ≡ delivery
                (map (record_of s) (
                  filter
                    (selected s.type (get_bdb_key s.type min_keys false) max_keys)
                    (rows db w.env)))
                w2)
        × ((F : ℕ → Option Iterator) × (e' : B.Env) × (w2
              ≡ record w { iterators = F; env = e'; next_iterator = suc w.next_iterator })
            × (rows db e' ≡ rows db w.env))
        × (j : Iterator) × (w2.iterators it ≡ some (ended j))
  get_records-scans tx min_keys max_keys old calls fuel min_fits max_fits sorted few enough =
      let key = get_bdb_key s.type min_keys false in
      let (c, e', ran, on) = new_iterator-runs tx min_keys max_keys in
      let i : Iterator = fresh h min_keys max_keys c key in
      let w1 : World B = opened_world e' i in
      let (lower, ahead, same, low, high, sorted_ahead) =
        split_below s.type key (rows db w.env) sorted in
      let parts : length (rows db w.env) ≡ length lower + length ahead =
        ap length same ∙ length-append lower ahead in
      let (w2, delivers, (F, e2, same_heap, final), j, at_end) =
        fetch_all-Delivers s L db w.next_iterator c calls fuel ahead w1 i (omega arith)
          (omega arith)
          (Ready-fresh c e' min_keys max_keys key lower ahead max_fits same low high on)
          sorted_ahead in
      (
        w.next_iterator,
        w1,
        w2,
        get_records-runs tx min_keys max_keys old w1 min_fits max_fits ran,
        delivers
            ∙ ap (λ chosen. delivery (map (record_of s) chosen) w2)
                (sym (
                  ap (filter (selected s.type key max_keys)) same
                  ∙ filter-selected s.type key max_keys lower ahead low high)),
        (F, e2, same_heap, final ∙ on_rows on),
        j,
        at_end,
      )

  -- GetRecords on an open handle returns kOk and an iterator, from which the calls of GetNext
  -- deliver exactly the records of the index's rows that are not below the encoded minimum key and
  -- have no attribute above the maximum key, in the order of the rows, and then kErrorNotFound. The
  -- two keys have the index's attribute count, the rows are sorted by their keys, the number of
  -- calls and the fuel exceed the number of rows, and Berkeley DB meets no lock conflict.
  pub get_records-selects :
      (tx : Option ℕ) (min_keys max_keys : Key) (old : Option ℕ) (calls fuel : ℕ)
      → length min_keys ≡ length s.type
      → length max_keys ≡ length s.type
      → IsSorted s.type (rows db w.env)
      → length (rows db w.env) < calls
      → length (rows db w.env) < fuel
      → (it : ℕ) × (w1 : World B) × (w2 : World B) × (get_records tx
            (some h)
            min_keys
            max_keys
            (some old)
            w
          ≡ (returned (k_ok, some (some it)), w1))
        × (fetch_all calls fuel it w1
            ≡ delivery
                (map (record_of s) (
                  filter
                    (selected s.type (get_bdb_key s.type min_keys false) max_keys)
                    (rows db w.env)))
                w2)
  get_records-selects tx min_keys max_keys old calls fuel min_fits max_fits sorted few enough =
      let (it, w1, w2, got, fetched, _, _, _) =
        get_records-scans tx min_keys max_keys old calls fuel min_fits max_fits sorted few enough in
      (it, w1, w2, got, fetched)
