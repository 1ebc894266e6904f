-- ===== src/Consistency/Deleted.antt =====
-- DeleteIndex on an index without handles, and on one with an open handle (example/BDBImpl.cc and
-- example/Index.cc).
use oxford_sigmod.Base.{
  ℕ, true, false, Option, none, some, List, [], ◌∷◌, String, ◌≡◌, ◌≢◌, sym, arith, All,
}
use mathlib.Core.Path.{subst}
use oxford_sigmod.Types.{ErrorCode, k_ok}
use oxford_sigmod.Base.Sets.{member-erase}
use oxford_sigmod.Bdb.{Bdb, Exception, done, raise, get_errno}
use oxford_sigmod.Structure.{IndexStructure, make_read_only, unregister_handle}
use oxford_sigmod.World.{World, Index, Outcome, returned, stuck, update}
use oxford_sigmod.Manager.{
  lookup, erase, find, remove, remove_found, delete_structure, close_handles, close, close_db,
  unregister,
}
use oxford_sigmod.Api.{given_name, remove_error, delete_index}
use oxford_sigmod.Consistency.Invariant.{Consistent, IsLive}
use oxford_sigmod.Consistency.Runs.{Reachable, calls, removes, IsDefined, Reachable-Consistent}

All-elsewhere :
    (F : ℕ → Option IndexStructure) (next p : ℕ) (m : List (String × ℕ))
    → F p ≡ none
    → All (λ e. IsLive F next e.1) m
    → All (λ e. e.1 ≢ p) m
All-elsewhere F next p [] gone live = tt
All-elsewhere F next p (e ∷ m) gone ((s, at, _), live) =
    ((λ same. ground (arith, same, at, gone)), All-elsewhere F next p m gone live)

module _ {B : Bdb} where
  module _ (w : World B) (n : String) (p : ℕ) (s : IndexStructure)
      (given : given_name (some n) ≡ some n) (named : lookup n w.indices ≡ some p)
      (found : w.structures p ≡ some s) (free : s.transactions ≡ []) where
    delete_index-runs :
        (e' : B.Env)
        → s.handles ≡ []
        → B.db_remove n w.env ≡ (done tt, e')
        → (F : ℕ → Option IndexStructure) × (F p ≡ none)
          × (delete_index (some n) w
              ≡ (returned k_ok, record w { env = e'; structures = F; indices = erase n w.indices }))
    unfolding delete_index remove find remove_found delete_structure close_handles make_read_only
    delete_index-runs e' unused removed = (
      update (update w.structures p (some (make_read_only s).1)) p none,
      ground arith,
      ground (arith, given, named, found, free, unused, removed),
    )

    -- The first of the registered handles is open.
    module _ (h : ℕ) (hs : List ℕ) (i : Index) (db : ℕ) (registered : s.handles ≡ h ∷ hs)
        (at : w.objects h ≡ some i) (open_handle : i.closed ≡ false)
        (of_handle : i.structure ≡ some p) (at_db : i.db ≡ some db) where
      -- DeleteIndex on an index whose first registered handle is open has no defined result if
      -- Berkeley DB closes the handle's database: `Close` erases the handle from the set that
      -- `CloseHandles` goes through, and the loop then advances its iterator, which is no longer
      -- valid. The index has no transaction, its name is not empty, and the handle is one on this
      -- index and has a database.
      pub delete_index-undefined :
          (e' : B.Env) → B.db_close db w.env ≡ (done tt, e') → (delete_index (some n) w).0 ≡ stuck
      unfolding delete_index remove find remove_found delete_structure close_handles make_read_only
          close close_db unregister unregister_handle
      delete_index-undefined e' closed = ground (
        arith,
        given,
        named,
        found,
        free,
        registered,
        at,
        open_handle,
        of_handle,
        at_db,
        closed,
        member-erase h h s.handles,
      )

      -- DeleteIndex on an index whose first registered handle is open, and has a database that
      -- Berkeley DB does not close, returns an error for the exception, but the structure of the
      -- index is deleted and its name still stands in the map: a second DeleteIndex on the name
      -- follows the dangling pointer. The index has no transaction, its name is not empty, and the
      -- handle is one on this index.
      pub delete_index-dangles :
          (x : Exception) (e' : B.Env)
          → B.db_close db w.env ≡ (raise x, e')
          → (w' : World B) × (delete_index (some n) w ≡ (returned (remove_error (get_errno x)), w'))
            × (w'.structures p ≡ none)
            × (lookup n w'.indices ≡ some p)
            × ((delete_index (some n) w').0 ≡ stuck)
      unfolding delete_index remove find remove_found delete_structure close_handles make_read_only
          close close_db
      delete_index-dangles x e' fails =
          let F = update (update w.structures p (some (make_read_only s).1)) p none in
          let gone : F p ≡ none = ground arith in
          let w' : World B = record w {
            env = e';
            structures = F;
            objects = update w.objects h (some (record i { closed = true }));
          } in
          (
            w',
            ground (arith, given, named, found, free, registered, at, open_handle, at_db, fails),
            gone,
            named,
            ground (arith, given, named, gone),
          )

  -- In a reachable world DeleteIndex on an index with no transaction and no registered handle, whose
  -- database Berkeley DB removes, returns kOk; the index's structure is deleted, and neither a name
  -- of the map nor an open handle points to it. The name is not empty.
  pub delete_index-deletes :
      {w : World B}
      → Reachable w
      → (n : String) (p : ℕ) (s : IndexStructure) (e' : B.Env) → given_name (some n) ≡ some n
      → lookup n w.indices ≡ some p
      → w.structures p ≡ some s
      → s.transactions ≡ []
      → s.handles ≡ []
      → B.db_remove n w.env ≡ (done tt, e')
      → (w' : World B) × (delete_index (some n) w ≡ (returned k_ok, w'))
        × (w'.structures p ≡ none)
        × All (λ e. e.1 ≢ p) w'.indices
        × ((h : ℕ) (i : Index) → w'.objects h ≡ some i → i.closed ≡ false → i.structure ≢ some p)
  delete_index-deletes {w} reached n p s e' given named found free unused removed =
      let (F, gone, ran) = delete_index-runs w n p s given named found free e' unused removed in
      let w' : World B = record w { env = e'; structures = F; indices = erase n w.indices } in
      let c : Consistent w' =
        subst (λ (o : Outcome ErrorCode × World B). Consistent o.1) ran
          (Reachable-Consistent (
            calls reached (
              removes w (some n)
                (λ m given_m q t named_q found_q.
                  ground (arith, given, given_m, named, named_q, found, found_q, unused))
                (subst IsDefined (sym ran) tt)))) in
      (
        w',
        ran,
        gone,
        All-elsewhere F w.next_structure p (erase n w.indices) gone c.named,
        λ h i at open_handle uses.
            let (q, t, of_handle, at_q, _, _, _) = c.listed h i at open_handle in
            ground (arith, uses, of_handle, at_q, gone),
      )
