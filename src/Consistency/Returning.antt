-- ===== src/Consistency/Returning.antt =====
-- UpdateRecord, DeleteRecord and GetRecords on the handles of a reachable world (example/BDBImpl.cc,
-- example/Index.cc and example/Iterator.cc).
use oxford_sigmod.Base.{
  ℕ, suc, Bool, true, false, ◌&&◌, Option, none, some, ◌≡◌, refl, sym, arith, Bool-cases, inl, inr,
  ◌==◌, length,
}
use mathlib.Core.Path.{subst}
use oxford_sigmod.Types.{
  ErrorCode, k_ok, k_error_unknown_index, k_error_incompatible_key, k_error_generic_failure,
  k_error_not_found, Record, Block, Key,
}
use oxford_sigmod.Util.Lexicographic.{HasTypes}
use oxford_sigmod.Bdb.{Bdb, Dbt, Code, Reply, done, raise}
use oxford_sigmod.Structure.{IndexStructure}
use oxford_sigmod.World.{World, Index, Iterator, returned, update}
use oxford_sigmod.Index.{compatible, index_bdb_key}
use oxford_sigmod.Index.Modify
use oxford_sigmod.Index.Modify.{modify, modify_matching, in_transaction, match_duplicates}
use oxford_sigmod.Iterator.{new_iterator, allocate_iterator}
use oxford_sigmod.Manager.Laws.{IsThere}
use oxford_sigmod.Api.{
  update_record, delete_record, get_records, get_compatible, get_failed, write_error, access_error,
}
use oxford_sigmod.Util.{copy_key}
use oxford_sigmod.Api.RangeQuery.{fresh}
use oxford_sigmod.Consistency.Endings.{Ends, Returns}
use oxford_sigmod.Consistency.Modifying.{act_of, in_transaction-Survives}
use oxford_sigmod.Consistency.Handling.{Serves, Serves-open, with_open-Returns}
use oxford_sigmod.Consistency.Runs.{Reachable}

module _ {B : Bdb} where
  -- A handle that is there and open.
  module _ (w : World B) (h : ℕ) (i : Index) (at : w.objects h ≡ some i) (v : Serves w i) where
    module _ (fuel : ℕ) (tx : Option ℕ) (r : Record) (flags : ℕ)
        (single : match_duplicates flags ≡ false) (typed : HasTypes v.structure.type r.key) where
      modify-Ends :
          (call : ℕ → Dbt → B.Env → Reply Code × B.Env) (error : ErrorCode)
          → Ends
              (λ a w'. IsThere {B = B} w' v.structure_pointer)
              (modify fuel tx h r flags (act_of call) error w)
      unfolding modify
      modify-Ends call error =
          let same : modify fuel tx h r flags (act_of call) error w
              ≡ in_transaction tx v.structure_pointer v.database
                  (modify_matching fuel tx v.structure_pointer v.structure.type (act_of call) error
                    r flags)
                  w =
            ground (arith, at, v.at_structure, v.at_db, v.found) in
          subst (Ends (λ a w'. IsThere {B = B} w' v.structure_pointer)) (sym same) (
            in_transaction-Survives v.structure.type r.key typed fuel tx call error r.payload flags
              single v.database w (v.structure, v.found))

      delete-Ends :
          Ends
            (λ a w'. IsThere {B = B} w' v.structure_pointer)
            (Modify.delete_record fuel tx h r flags w)
      unfolding Modify.delete_record
      delete-Ends = modify-Ends (λ cursor key. B.cursor_del cursor) k_error_generic_failure

      update-Ends :
          (payload : Block)
          → Ends
              (λ a w'. IsThere {B = B} w' v.structure_pointer)
              (Modify.update_record fuel tx h r payload flags w)
      unfolding Modify.update_record
      update-Ends payload =
          modify-Ends (λ cursor key. B.cursor_put_current cursor key payload) k_error_not_found

  module _ {w : World B} (reached : Reachable w) (fuel : ℕ) (tx : Option ℕ) (h : ℕ) (i : Index)
      (r : Record) (flags : ℕ) (at : w.objects h ≡ some i) (single : match_duplicates flags ≡ false)
      (typed : (p : ℕ) (s : IndexStructure)
        → i.structure ≡ some p
        → w.structures p ≡ some s
        → length r.key ≡ length s.type
        → HasTypes s.type r.key) where
    typed_at :
        (v : Serves w i) (x : Record)
        → some r ≡ some x
        → length x.key ≡ length v.structure.type
        → HasTypes v.structure.type x.key
    typed_at v x same counts =
        let same_record : r ≡ x = ground (arith, same) in
        subst (λ y. HasTypes v.structure.type y.key) same_record
          (typed v.structure_pointer v.structure v.at_structure v.found
            (subst (λ y. length y.key ≡ length v.structure.type) (sym same_record) counts))

    delete_record-runs : Returns (delete_record fuel tx (some h) (some r) flags) w
    unfolding delete_record
    delete_record-runs =
        with_open-Returns reached h i (λ g x. Modify.delete_record fuel tx g x flags) access_error
          (some r) at
          λ v x same counts.
            delete-Ends w h i at v fuel tx x flags single (typed_at v x same counts)

    update_record-runs :
        (payload : Block) → Returns (update_record fuel tx (some h) (some r) (some payload) flags) w
    unfolding update_record
    update_record-runs payload =
        with_open-Returns reached h i (λ g x. Modify.update_record fuel tx g x payload flags)
          write_error (some r) at
          λ v x same counts.
            update-Ends w h i at v fuel tx x flags single (typed_at v x same counts) payload

    -- In every reachable world, whatever Berkeley DB answers, DeleteRecord and UpdateRecord without
    -- kMatchDuplicates, with a record, a payload and a handle that is there, open or closed, return a
    -- code: no exception leaves them, no assertion fails, and they follow no NULL or dangling
    -- pointer. If the record's key has as many attributes as the index of the handle, it has no
    -- NULL and the index's types.
    pub delete_update-Return :
        (payload : Block)
        → Returns (delete_record fuel tx (some h) (some r) flags) w
          × Returns (update_record fuel tx (some h) (some r) (some payload) flags) w
    delete_update-Return payload = (delete_record-runs, update_record-runs payload)

  compatible-runs :
      (w : World B) (h : ℕ) (i : Index) (key : Key)
      → w.objects h ≡ some i
      → i.closed ≡ false
      → Serves w i
      → (fits : Bool) × (compatible h key w ≡ (returned fits, w))
  unfolding compatible
  compatible-runs w h i key at is_open v =
      (length key == length v.structure.type, ground (arith, at, is_open, v.at_structure, v.found))

  get_compatible-Returns :
      (w : World B) (tx : Option ℕ) (h : ℕ) (i : Index) (min_keys max_keys : Key)
      → w.objects h ≡ some i
      → Serves w i
      → Returns (get_compatible tx h min_keys max_keys (some none)) w
  unfolding get_compatible get_failed new_iterator allocate_iterator
  get_compatible-Returns w tx h i min_keys max_keys at v = go (B.db_cursor v.database tx w.env) refl
    where
      go :
          (reply : Reply ℕ × B.Env)
          → B.db_cursor v.database tx w.env ≡ reply
          → Returns (get_compatible tx h min_keys max_keys (some none)) w
      go (done c, e') opened =
          let key = index_bdb_key v.structure.type min_keys false in
          let it : Iterator = fresh h (copy_key min_keys) (copy_key max_keys) c key in
          (
            (k_ok, some (some w.next_iterator)),
            record w {
              env = e';
              iterators = update w.iterators w.next_iterator (some it);
              next_iterator = suc w.next_iterator;
            },
            ground (arith, at, v.at_db, v.at_structure, v.found, opened),
          )
      go (raise x, e') failed =
          ((access_error x, some none), record w { env = e' }, ground (arith, at, v.at_db, failed))

  get_records-open :
      (w : World B) (tx : Option ℕ) (h : ℕ) (i : Index) (min_keys max_keys : Key)
      → w.objects h ≡ some i
      → i.closed ≡ false
      → Serves w i
      → Returns (get_records tx (some h) min_keys max_keys (some none)) w
  unfolding get_records
  get_records-open w tx h i min_keys max_keys at is_open v =
      let (min_fits, first) = compatible-runs w h i min_keys at is_open v in
      let (max_fits, second) = compatible-runs w h i max_keys at is_open v in
      elim (Bool-cases (min_fits && max_fits)) [
        | inr differs ↦ (
          (k_error_incompatible_key, some none),
          w,
          ground (arith, at, is_open, first, second, differs),
        )
        | inl same ↦
            let (result, w', ran) = get_compatible-Returns w tx h i min_keys max_keys at v in
            (result, w', ground (arith, at, is_open, first, second, same, ran))
      ]

  get_records-closed :
      (w : World B) (tx : Option ℕ) (h : ℕ) (i : Index) (min_keys max_keys : Key)
      → w.objects h ≡ some i
      → i.closed ≡ true
      → Returns (get_records tx (some h) min_keys max_keys (some none)) w
  unfolding get_records
  get_records-closed w tx h i min_keys max_keys at closed =
      ((k_error_unknown_index, some none), w, ground (arith, at, closed))

  -- In every reachable world, whatever Berkeley DB answers, GetRecords on a handle that is there, open
  -- or closed, with any two keys and a cell that holds NULL, returns a code: no exception leaves it,
  -- and it follows no NULL or dangling pointer.
  pub get_records-Returns :
      {w : World B}
      → Reachable w
      → (tx : Option ℕ) (h : ℕ) (i : Index) (min_keys max_keys : Key) → w.objects h ≡ some i
      → Returns (get_records tx (some h) min_keys max_keys (some none)) w
  get_records-Returns {w} reached tx h i min_keys max_keys at = elim (Bool-cases i.closed) [
    | inl closed ↦ get_records-closed w tx h i min_keys max_keys at closed
    | inr is_open ↦
        get_records-open w tx h i min_keys max_keys at is_open (Serves-open reached h i at is_open)
  ]
