-- ===== src/Manager.antt =====
-- class IndexManager, the deletion of a structure, and the closing of index handles
-- (example/Index.cc). The methods of the singleton run under its mutex.
pub mod Laws
use text.Mathlib.Text.{◌==◌ as str_eq}
use oxford_sigmod.Base.{
  ℕ, suc, Bool, true, false, Option, none, some, List, [], ◌∷◌, String, if◌then◌else◌, ◌==◌,
}
use oxford_sigmod.Base.Sets
use oxford_sigmod.Types.{
  ErrorCode, k_ok, k_error_unknown_index, k_error_open_transactions, AttributeType,
}
use oxford_sigmod.Bdb.{Bdb}
use oxford_sigmod.Structure.{
  IndexStructure, new_structure, unregister_handle, end_transaction, make_read_only,
  start_transaction,
}
use oxford_sigmod.World.{
  World, Index, Outcome, M, ◌>>=◌, ◌>>◌, pure, fail, finally, or_fail, bdb, structure_at,
  set_structure, object_at, set_object, update,
}

-- `std::map<std::string, _>`, by its entries.
unfoldable pub lookup : {A : Type 0} → String → List (String × A) → Option A
lookup name [] = none
lookup name ((k, p) ∷ m) = if str_eq k name then some p else lookup name m

unfoldable pub insert : {A : Type 0} → String → A → List (String × A) → List (String × A)
insert name p [] = (name, p) ∷ []
insert name p ((k, q) ∷ m) = if str_eq k name then (k, p) ∷ m else (k, q) ∷ insert name p m

unfoldable pub erase : {A : Type 0} → String → List (String × A) → List (String × A)
erase name [] = []
erase name ((k, q) ∷ m) = if str_eq k name then m else (k, q) ∷ erase name m

module _ {B : Bdb} where
  -- `IndexManager::Find`; none for NULL.
  unfoldable pub find : String → M B (Option ℕ)
  unfolding lookup
  find name w = (Outcome.returned (lookup name w.indices), w)

  -- `IndexManager::Insert`
  unfoldable pub insert_structure : String → ℕ → M B (Unit {0})
  unfolding insert
  insert_structure name p w = (Outcome.returned tt, record w { indices = insert name p w.indices })

  abbrev pub erase_entry : String → M B (Unit {0})
  erase_entry name w = (Outcome.returned tt, record w { indices = erase name w.indices })

  -- `new IndexStructure(attribute_count, type)`
  unfoldable pub allocate_structure : List AttributeType → M B ℕ
  unfolding new_structure
  allocate_structure type w = (
    Outcome.returned w.next_structure,
    record w {
      structures = update w.structures w.next_structure (some (new_structure type));
      next_structure = suc w.next_structure;
    },
  )

  -- `if(db_ != NULL){ db_->close(0); db_ = NULL; }`
  unfoldable pub close_db : ℕ → Index → M B Index
  close_db h i = elim i.db [
    | none ↦ pure i
    | some db ↦ do
      bdb (B.db_close db)
      set_object h (some (record i { db = none }))
      pure (record i { db = none })
  ]

  -- `if(structure_ != NULL) structure_->unregister_handle(this);`
  unfoldable pub unregister : ℕ → Index → M B (Unit {0})
  unfolding unregister_handle
  unregister h i = elim i.structure [
    | none ↦ pure tt
    | some p ↦ do s ← structure_at p; set_structure p (some (unregister_handle h s))
  ]

  -- `Index::Close`
  unfoldable pub close : ℕ → M B (Unit {0})
  unfolding close_db unregister
  close h = do
    i ← object_at h
    elim i.closed [
      | true ↦ pure tt
      | false ↦ do
        set_object h (some (record i { closed = true }))
        j ← close_db h (record i { closed = true })
        unregister h j
    ]

  -- `IndexStructure::CloseHandles`, from an iterator on the first of these handles. If `Close` has
  -- erased the handle from the set, `it++` advances an iterator that is no longer valid.
  unfoldable pub close_handles : ℕ → List ℕ → M B (Unit {0})
  unfolding close
  close_handles p [] = pure tt
  close_handles p (h ∷ hs) = do
    close h
    s ← structure_at p
    elim (Sets.member h s.handles) [ false ↦ fail | true ↦ close_handles p hs ]

  -- `delete structure`: the destructor closes the open handles. The object is gone also when the
  -- destructor throws.
  unfoldable pub delete_structure : ℕ → M B (Unit {0})
  unfolding close_handles
  delete_structure p = do
    s ← structure_at p
    finally (close_handles p s.handles) (set_structure p none)

  -- `delete handle`: the destructor closes it. The object is gone also when the destructor throws.
  unfoldable pub delete_handle : ℕ → M B (Unit {0})
  unfolding close
  delete_handle h = finally (close h) (set_object h none)

  -- `IndexManager::Remove`, for a structure that was found.
  unfoldable pub remove_found : String → ℕ → M B ErrorCode
  unfolding delete_structure make_read_only
  remove_found name p = do
    s ← structure_at p
    let (writable_no_more, s') = make_read_only s
    set_structure p (some s')
    elim writable_no_more [
      | true ↦ do delete_structure p; erase_entry name; pure k_ok
      | false ↦ pure k_error_open_transactions
    ]

  unfoldable pub remove : String → M B ErrorCode
  unfolding find remove_found
  remove name = do
    found ← find name
    elim found [ none ↦ pure k_error_unknown_index | some p ↦ remove_found name p ]

  -- `IndexStructure::start_transaction` and `end_transaction`, on the heap.
  unfoldable pub start_transaction_at : ℕ → ℕ → M B Bool
  unfolding start_transaction
  start_transaction_at p tx = do
    s ← structure_at p
    let (started, s') = start_transaction tx s
    set_structure p (some s')
    pure started

  unfoldable pub end_transaction_at : ℕ → ℕ → M B (Unit {0})
  unfolding end_transaction
  end_transaction_at p tx = do s ← structure_at p; set_structure p (some (end_transaction tx s))

  unfoldable pub end_transaction_in : ℕ → List (String × ℕ) → M B (Unit {0})
  unfolding end_transaction_at
  end_transaction_in tx [] = pure tt
  end_transaction_in tx ((_, p) ∷ m) = do end_transaction_at p tx; end_transaction_in tx m

  -- `IndexManager::CloseTransaction`
  unfoldable pub close_transaction : ℕ → M B (Unit {0})
  unfolding end_transaction_in
  close_transaction tx w = end_transaction_in tx w.indices w
