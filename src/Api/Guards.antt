-- ===== src/Api/Guards.antt =====
-- The argument checks of the interface (example/BDBImpl.cc): what is refused touches nothing.
use oxford_sigmod.Base.{ℕ, false, Option, some, ◌≡◌, ◌≢◌, arith, length, ◌==◌}
use oxford_sigmod.Types.{ErrorCode, k_error_incompatible_key, Key, Record, Block}
use oxford_sigmod.Bdb.{Bdb}
use oxford_sigmod.Structure.{IndexStructure}
use oxford_sigmod.World.{World, Index, returned}
use oxford_sigmod.Index.{compatible_record, compatible}
use oxford_sigmod.Api.{Cell, insert_record, update_record, delete_record, get_records}

-- The four functions that take an index handle all refuse with `code` and change nothing.
abbrev pub Refuses : {B : Bdb} → World B → ℕ → ErrorCode → Key → Type 0
Refuses {B} w h code key =
    (fuel flags : ℕ) (tx : Option ℕ) (payload : Block) (b : Option Block) (max : Key) (it : Cell ℕ)
    → let r : Record = record { key = key; payload = payload } in
      (insert_record tx (some h) (some r) w ≡ (returned code, w))
      × (update_record fuel tx (some h) (some r) b flags w ≡ (returned code, w))
      × (delete_record fuel tx (some h) (some r) flags w ≡ (returned code, w))
      × (get_records tx (some h) key max it w ≡ (returned (code, it), w))

module _ {B : Bdb} where
  compatible-differs :
      (w : World B) (h p : ℕ) (i : Index) (s : IndexStructure) (key : Key)
      → w.objects h ≡ some i
      → i.closed ≡ false
      → i.structure ≡ some p
      → w.structures p ≡ some s
      → length key ≢ length s.type
      → compatible h key w ≡ (returned false, w)
  unfolding compatible
  compatible-differs w h p i s key at open_handle at_structure found differs =
      ground (arith, at, open_handle, at_structure, found)

  compatible-fits :
      (w : World B) (h p : ℕ) (i : Index) (s : IndexStructure) (key : Key)
      → w.objects h ≡ some i
      → i.closed ≡ false
      → i.structure ≡ some p
      → w.structures p ≡ some s
      → compatible h key w ≡ (returned (length key == length s.type), w)
  unfolding compatible
  compatible-fits w h p i s key at open_handle at_structure found =
      ground (arith, at, open_handle, at_structure, found)

  -- Through an open handle a key whose attribute count differs from the index's is refused by
  -- InsertRecord, UpdateRecord and DeleteRecord, and by GetRecords as the minimum, with
  -- kErrorIncompatibleKey, and nothing changes.
  pub incompatible-Refuses :
      (w : World B) (h p : ℕ) (i : Index) (s : IndexStructure) (key : Key)
      → w.objects h ≡ some i
      → i.closed ≡ false
      → i.structure ≡ some p
      → w.structures p ≡ some s
      → length key ≢ length s.type
      → Refuses w h k_error_incompatible_key key
  unfolding insert_record update_record delete_record get_records compatible_record
  incompatible-Refuses w h p i s key at open_handle at_structure found differs fuel flags tx payload
        b max it =
      let refused = compatible-differs w h p i s key at open_handle at_structure found differs in
      let other = compatible-fits w h p i s max at open_handle at_structure found in
      (
        ground (arith, at, open_handle, refused),
        ground (arith, at, open_handle, refused),
        ground (arith, at, open_handle, refused),
        ground (arith, at, open_handle, refused, other),
      )
