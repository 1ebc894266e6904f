-- ===== src/Tests/Runs.antt =====
-- Calls from the empty heap.
use oxford_sigmod.Base.{ℕ, false, none, some, [], ◌∷◌, ◌≡◌, ◌≢◌, refl, sym, arith, length, All}
use oxford_sigmod.Types.{k_ok}
use oxford_sigmod.Bdb.Laws.{start}
use oxford_sigmod.World.{World, returned, stuck}
use oxford_sigmod.Api.{
  create_index, open_index, begin_transaction, insert_record, commit_transaction, abort_transaction,
}
use oxford_sigmod.Base.Sets.{member}
use oxford_sigmod.Structure.{IndexStructure}
use oxford_sigmod.Manager
use oxford_sigmod.Manager.{lookup, find, allocate_structure, insert_structure}
use oxford_sigmod.Index as Handle
use oxford_sigmod.Index.{allocate_index, open_found}
use oxford_sigmod.Api.{create_named, delete_record, update_record, get_records}
use oxford_sigmod.Consistency.Serving.{insert_record-Returns}
use oxford_sigmod.Consistency.Endings.{Returns}
use oxford_sigmod.Consistency.Returning.{delete_update-Return, get_records-Returns}
use oxford_sigmod.Util.Lexicographic.{HasTypes}
use mathlib.Core.Path.{subst}
use oxford_sigmod.Base.Sets
use oxford_sigmod.Base.Sets.{erase}
use oxford_sigmod.World.{Index}
use oxford_sigmod.Bdb.{Bdb, raise, deadlock_exception, get_errno}
use oxford_sigmod.Structure.{new_structure, register_handle}
use oxford_sigmod.Api.{delete_index, close_index, remove_error}
use oxford_sigmod.Consistency.Serving.{close_index-closes}
use oxford_sigmod.Consistency.Deleted.{
  delete_index-deletes, delete_index-undefined, delete_index-dangles,
}
use oxford_sigmod.Consistency.Invariant.{Consistent}
use oxford_sigmod.Consistency.Runs.{
  empty_world, Reachable, starts, calls, creates, opens, begins, inserts, Reachable-Consistent,
}
use oxford_sigmod.Consistency.Progress.{
  Answers, commit_transaction-Answers, abort_transaction-Answers,
}
use oxford_sigmod.Tests.{rec, pair, structure, kinds, small, handle}

abbrev created : World small
created = (create_index (some "a") 2 (some kinds) (empty_world (start []))).1

abbrev opened : World small
opened = (open_index (some "a") none created).1

abbrev begun : World small
begun = (begin_transaction (some none) opened).1

abbrev inserted : World small
inserted = (insert_record (some 7) (some 0) (some (rec 1 1)) begun).1

reached_created : Reachable created
unfolding create_index create_named allocate_structure insert_structure Manager.insert
reached_created =
    calls (starts (start [])) (creates (empty_world (start [])) (some "a") 2 (some kinds) tt)

reached_opened : Reachable opened
unfolding open_index allocate_index Handle.open_index open_found find lookup create_index
    create_named allocate_structure insert_structure Manager.insert
reached_opened = calls reached_created (opens created (some "a") none tt)

reached_begun : Reachable begun
unfolding begin_transaction
reached_begun = calls reached_opened (begins opened (some none) tt)

reached : Reachable inserted
unfolding insert_record open_index allocate_index Handle.open_index open_found find lookup
    create_index create_named allocate_structure insert_structure Manager.insert begin_transaction
    Handle.compatible_record Handle.insert
reached = calls reached_begun (inserts begun (some 7) (some 0) (some (rec 1 1)) tt)

Reachable-Consistent_example : Consistent inserted
Reachable-Consistent_example = Reachable-Consistent reached

commit_transaction-Answers_example : Answers 7 (commit_transaction (some (some 7)) inserted)
commit_transaction-Answers_example = commit_transaction-Answers reached 7

abort_transaction-Answers_example : Answers 7 (abort_transaction (some (some 7)) inserted)
abort_transaction-Answers_example = abort_transaction-Answers reached 7

opened_object : opened.objects 0 ≡ some (handle false)
unfolding create_index create_named allocate_structure insert_structure Manager.insert open_index
    allocate_index Handle.open_index open_found find lookup
opened_object = refl

insert_record-Returns_example : Returns (insert_record none (some 0) (some (rec 1 1))) opened
insert_record-Returns_example =
    insert_record-Returns reached_opened none 0 (handle false) (some (rec 1 1)) opened_object

opened_structure : opened.structures 0 ≡ some (record (structure []) { size = 8 })
unfolding create_index create_named allocate_structure insert_structure Manager.insert open_index
    allocate_index Handle.open_index open_found find lookup new_structure register_handle
    Sets.insert
opened_structure = refl

opened_types :
    (p : ℕ) (s : IndexStructure)
    → (handle false).structure ≡ some p
    → opened.structures p ≡ some s
    → length (pair 1 1) ≡ length s.type
    → HasTypes s.type (pair 1 1)
opened_types p s at found counts =
    let here : 0 ≡ p = ground (arith, at) in
    let same : record (structure []) { size = 8 } ≡ s =
      ground
        (arith, subst (λ q. opened.structures q ≡ some s) (sym here) found, opened_structure) in
    subst (λ (x : IndexStructure). HasTypes x.type (pair 1 1)) same (refl, (refl, tt))

delete_update-Return_example :
    Returns (delete_record 1 none (some 0) (some (rec 1 1)) 2) opened
    × Returns (update_record 1 none (some 0) (some (rec 1 1)) (some (8 ∷ [])) 2) opened
delete_update-Return_example =
    delete_update-Return reached_opened 1 none 0 (handle false) (rec 1 1) 2 opened_object refl
      opened_types (8 ∷ [])

get_records-Returns_example :
    Returns (get_records none (some 0) (pair 1 1) (pair 2 4) (some none)) opened
get_records-Returns_example =
    get_records-Returns reached_opened none 0 (handle false) (pair 1 1) (pair 2 4) opened_object

opened_name : lookup "a" opened.indices ≡ some 0
unfolding create_index create_named allocate_structure insert_structure Manager.insert open_index
    allocate_index Handle.open_index open_found find lookup
opened_name = refl

created_name : lookup "a" created.indices ≡ some 0
unfolding create_index create_named allocate_structure insert_structure Manager.insert find lookup
created_name = refl

created_structure : created.structures 0 ≡ some (record (structure []) { size = 8; handles = [] })
unfolding create_index create_named allocate_structure insert_structure Manager.insert new_structure
created_structure = refl

delete_index-deletes_example :
    (w' : World small) × (delete_index (some "a") created ≡ (returned k_ok, w'))
    × (w'.structures 0 ≡ none)
    × All (λ e. e.1 ≢ 0) w'.indices
    × ((h : ℕ) (i : Index) → w'.objects h ≡ some i → i.closed ≡ false → i.structure ≢ some 0)
delete_index-deletes_example =
    delete_index-deletes reached_created "a" 0 (record (structure []) { size = 8; handles = [] })
      created.env refl created_name created_structure refl refl refl

delete_index-undefined_example : (delete_index (some "a") opened).0 ≡ stuck
delete_index-undefined_example =
    delete_index-undefined opened "a" 0 (record (structure []) { size = 8 }) refl opened_name
      opened_structure refl 0 [] (handle false) 0 refl opened_object refl refl refl opened.env refl

-- The environment in which closing a database meets a deadlock.
abbrev unclosable : Bdb
unclosable = record small { db_close = λ db e. (raise deadlock_exception, e) }

abbrev unclosable_world : World unclosable
unclosable_world = record {
  env = start [];
  structures = λ p. some (structure []);
  indices = ("a", 0) ∷ [];
  objects = λ h. some (handle false);
  next_structure = 1;
  next_object = 1;
  iterators = λ it. none;
  next_iterator = 0;
}

delete_index-dangles_example :
    (w' : World unclosable) × (delete_index (some "a") unclosable_world
      ≡ (returned (remove_error (get_errno deadlock_exception)), w'))
    × (w'.structures 0 ≡ none)
    × (lookup "a" w'.indices ≡ some 0)
    × ((delete_index (some "a") w').0 ≡ stuck)
unfolding lookup
delete_index-dangles_example =
    delete_index-dangles unclosable_world "a" 0 (structure []) refl refl refl refl 0 []
      (handle false) 0 refl refl refl refl refl deadlock_exception (start []) refl

close_index-closes_example :
    (p : ℕ) × (s : IndexStructure) × (w' : World small) × ((handle false).structure ≡ some p)
    × (opened.structures p ≡ some s)
    × (close_index (some (some 0)) opened ≡ (returned (k_ok, some none), w'))
    × (w'.objects 0 ≡ none)
    × (w'.structures p ≡ some (record s { handles = erase 0 s.handles }))
    × (member 0 (erase 0 s.handles) ≡ false)
close_index-closes_example =
    close_index-closes reached_opened 0 (handle false) 0 opened.env opened_object refl refl refl
