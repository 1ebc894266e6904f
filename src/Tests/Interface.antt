-- ===== src/Tests/Interface.antt =====
-- Calls of the interface that are refused, and a commit.
use oxford_sigmod.Base.{false, none, some, [], ◌∷◌, ◌≡◌, refl, arith}
use oxford_sigmod.Types.{k_error_incompatible_key, k_error_open_transactions}
use oxford_sigmod.Bdb.{Bdb, deadlock_exception, raise}
use oxford_sigmod.Bdb.Laws.{start}
use oxford_sigmod.World.{World, returned, update}
use oxford_sigmod.Manager.{lookup}
use oxford_sigmod.Api.{delete_index, delete_record, access_error}
use oxford_sigmod.Api.Guards.{Refuses, incompatible-Refuses}
use oxford_sigmod.Api.Deletion.{delete_index-held, delete_record-leaves_transaction}
use oxford_sigmod.Tests.{short, row, rec, structure, handle, world, small}

incompatible-Refuses_example :
    Refuses (world false) 0 k_error_incompatible_key (some (short 1) ∷ [])
incompatible-Refuses_example =
    incompatible-Refuses (world false) 0 0 (handle false) (structure []) (some (short 1) ∷ []) refl
      refl refl refl (omega arith)

delete_index-held_example : delete_index (some "b") (world false) ≡ (
  returned k_error_open_transactions,
  record (world false) {
    structures = update (world false).structures 1 (some (structure (3 ∷ [])));
  },
)
unfolding lookup
delete_index-held_example =
    delete_index-held (world false) "b" 1 3 (structure (3 ∷ [])) refl refl refl refl

-- The environment in which opening a cursor meets a deadlock.
abbrev contended : Bdb
contended = record small { db_cursor = λ db tx e. (raise deadlock_exception, e) }

abbrev contended_world : World contended
contended_world = record {
  env = start (row 1 1 ∷ []);
  structures = λ p. some (structure []);
  indices = ("a", 0) ∷ [];
  objects = λ h. some (handle false);
  next_structure = 1;
  next_object = 1;
  iterators = λ it. none;
  next_iterator = 0;
}

delete_record-leaves_transaction_example :
    (w' : World contended) × (delete_record 0 none (some 0) (some (rec 1 1)) 0 contended_world
      ≡ (returned (access_error deadlock_exception), w'))
    × ((delete_index (some "a") w').0 ≡ returned k_error_open_transactions)
unfolding lookup
delete_record-leaves_transaction_example =
    delete_record-leaves_transaction contended_world "a" 0 0 0 7 (handle false) (structure [])
      (rec 1 1) 0 0 none contended_world.env contended_world.env deadlock_exception refl refl refl
      refl refl refl refl refl refl refl refl
