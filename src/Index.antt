-- ===== src/Index.antt =====
-- class Index (example/Index.cc): opening an index, inserting records, and the checks of keys.
pub mod Modify
pub mod Scan
pub mod Lookup
pub mod Effect
pub mod Changes
pub mod Match
pub mod Find
pub mod Single
use oxford_sigmod.Base.{
  ℕ, suc, zero, ◌/◌, ◌%◌, ◌+◌, Bool, true, false, Option, none, some, List, [], String,
  if◌then◌else◌, ◌==◌, is_eq,
}
use oxford_sigmod.Base.Sets
use oxford_sigmod.Types.{
  ErrorCode, k_ok, k_error_unknown_index, k_error_not_found, k_error_generic_failure, AttributeType,
  Key, Record, Block, attribute_count,
}
use oxford_sigmod.Util.{keycmp}
use oxford_sigmod.Bdb.{
  Bdb, Dbt, Row, Code, success, not_found, failure, GetFlag, db_set_range, db_get_both, db_next,
  db_next_dup,
}
use oxford_sigmod.Structure
use oxford_sigmod.Structure.{IndexStructure, get_bdb_key, get_key, register_handle}
use oxford_sigmod.World.{
  World, Index, Outcome, M, ◌>>=◌, ◌>>◌, pure, fail, or_fail, when, bdb, structure_at,
  set_structure, object_at, set_object, update,
}
use oxford_sigmod.Manager.{find, start_transaction_at, end_transaction_at}

-- `Index::GetBDBKey`, which does not pass its second argument on.
unfoldable pub index_bdb_key : List AttributeType → Key → Bool → Dbt
unfolding get_bdb_key
index_bdb_key types key max = get_bdb_key types key false

abbrev pub is_success : Code → Bool
is_success success = true
is_success not_found = false
is_success (failure _) = false

module _ {B : Bdb} where
  -- `new Index(name)`: closed, with no database and no structure yet.
  unfoldable pub allocate_index : String → M B ℕ
  allocate_index name w = (
    Outcome.returned w.next_object,
    record w {
      objects = update w.objects w.next_object (
          some
            (record { db = none; name = name; structure = none; closed = true; iterators = [] }));
      next_object = suc w.next_object;
    },
  )

  abbrev change_object : ℕ → (Index → Index) → M B (Unit {0})
  change_object h f = do i ← object_at h; set_object h (some (f i))

  -- `Index::Open`, which returns the handle beside its result: the handle is set first, before
  -- anything can fail.
  unfoldable pub open_found : ℕ → ℕ → ℕ → String → M B ErrorCode
  unfolding register_handle
  open_found h db p name = do
    change_object h (λ i. record i { structure = some p })
    s ← structure_at p
    set_structure p (some (register_handle h s))
    bdb (B.db_open db name false)
    change_object h (λ i. record i { closed = false })
    pure k_ok

  unfoldable pub open_index : ℕ → String → M B ErrorCode
  unfolding open_found find
  open_index h name = do
    db ← bdb B.db_create
    change_object h (λ i. record i { db = some db })
    found ← find name
    elim found [ none ↦ pure k_error_unknown_index | some p ↦ open_found h db p name ]

  -- `Index::Insert`
  unfoldable pub insert_begin : ℕ → Option ℕ → M B Bool
  unfolding start_transaction_at
  insert_begin p none = pure true
  insert_begin p (some tx) = start_transaction_at p tx

  unfoldable pub insert_put : ℕ → Option ℕ → Dbt → Dbt → M B ErrorCode
  insert_put db tx key value = do
    code ← bdb (B.db_put db tx key value)
    pure (if is_success code then k_ok else k_error_generic_failure)

  unfoldable pub insert : Option ℕ → ℕ → Record → M B ErrorCode
  unfolding insert_begin insert_put index_bdb_key
  insert tx h r = do
    i ← object_at h
    p ← or_fail i.structure
    started ← insert_begin p tx
    s ← structure_at p
    db ← or_fail i.db
    elim started [
      | false ↦ pure k_error_unknown_index
      | true ↦ insert_put db tx (index_bdb_key s.type r.key false) r.payload
    ]

  -- `Index::Compatible`: the handle is open and the counts agree; types are not compared.
  unfoldable pub compatible : ℕ → Key → M B Bool
  compatible h key = do
    i ← object_at h
    elim i.closed [
      | true ↦ pure false
      | false ↦ do
        p ← or_fail i.structure
        s ← structure_at p
        pure (attribute_count key == Structure.attribute_count s)
    ]

  unfoldable pub compatible_record : ℕ → Option Record → M B Bool
  unfolding compatible
  compatible_record h none = pure false
  compatible_record h (some r) = compatible h r.key

  -- `Index::register_iterator` and `unregister_iterator`; the argument may be NULL.
  unfoldable pub register_iterator : ℕ → Option ℕ → M B Bool
  unfolding Sets.insert
  register_iterator h it = do
    i ← object_at h
    elim i.closed [
      | true ↦ pure false
      | false ↦ elim it [
        | none ↦ pure true
        | some t ↦ do
          set_object h (some (record i { iterators = Sets.insert t i.iterators }))
          pure true
      ]
    ]

  unfoldable pub unregister_iterator : ℕ → ℕ → M B (Unit {0})
  unfolding Sets.erase
  unregister_iterator h it = do
    i ← object_at h
    elim i.closed [
      | true ↦ pure tt
      | false ↦ set_object h (some (record i { iterators = Sets.erase it i.iterators }))
    ]
