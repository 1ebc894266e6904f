-- ===== src/Consistency/Lifecycle.antt =====
-- Allocating, closing and deleting handles, and creating indices, against the invariant of the heap
-- (example/Index.cc).
use oxford_sigmod.Base.{ℕ, true, none, List, [], String, refl}
use oxford_sigmod.Types.{k_ok, AttributeType}
use oxford_sigmod.Bdb.{Bdb}
use oxford_sigmod.Structure.{new_structure}
use oxford_sigmod.World.{World, Index, ◌>>=◌, ◌>>◌, pure, set_object}
use oxford_sigmod.Manager.{close, insert_structure, allocate_structure}
use oxford_sigmod.Index.{allocate_index}
use oxford_sigmod.Consistency.Invariant.{Consistent, Keeps, Ensures}
use oxford_sigmod.Consistency.Rules.{Ensures-map}
use oxford_sigmod.Consistency.Heap.{IsConsistent-set_object, IsConsistent-insert}
use oxford_sigmod.Consistency.Handles.{NotOpen, closed_now, Consistent-set_closed}
use oxford_sigmod.Consistency.Closing.{Closing, close-Ensures}

module _ {B : Bdb} where
  pub close-Keeps : (h : ℕ) → Keeps {B = B} (close h)
  close-Keeps h w c =
      Ensures-map (λ _ w'. Closing h w w') (λ _ w'. Unit {0}) (close h w) (close-Ensures h w c)
        (λ _ w' q. tt)

  pub delete_object-Keeps : (h : ℕ) → Keeps {B = B} (set_object h none)
  delete_object-Keeps h w c =
      (IsConsistent-set_object c h none (λ i e open_handle. absurd (cc e)), tt)

  pub allocate_index-Ensures :
      (name : String) (w : World B)
      → Consistent w
      → Ensures (λ h w'. NotOpen h w') (allocate_index name w)
  unfolding allocate_index
  allocate_index-Ensures name w c =
      let i : Index = record {
        db = none;
        name = name;
        structure = none;
        closed = true;
        iterators = [];
      } in
      (Consistent-set_closed w w.next_object i c refl, closed_now w w.next_object i refl)

  -- A new structure is inserted under its name right after it was allocated.
  pub create-Keeps :
      (name : String) (types : List AttributeType)
      → Keeps {B = B} (do p ← allocate_structure types; insert_structure name p; pure k_ok)
  unfolding allocate_structure insert_structure new_structure
  create-Keeps name types w c = (IsConsistent-insert c name (new_structure types) refl, tt)
