-- ===== src/Consistency/Opening.antt =====
-- Opening a handle, against the invariant of the heap (example/Index.cc).
use oxford_sigmod.Base.{ℕ, ◌<◌, true, false, none, some, String, ◌≡◌, refl, arith}
use oxford_sigmod.Base.Sets.{member, member-insert}
use oxford_sigmod.Types.{ErrorCode, k_ok, k_error_unknown_index}
use oxford_sigmod.Bdb.{Bdb}
use oxford_sigmod.Structure.{IndexStructure, register_handle}
use oxford_sigmod.World.{
  World, Index, M, ◌>>=◌, ◌>>◌, pure, bdb, structure_at, set_structure, object_at, set_object,
  update,
}
use oxford_sigmod.Manager.{lookup, find}
use oxford_sigmod.Index.{open_index, open_found}
use oxford_sigmod.Consistency.Invariant.{Consistent, HasDb, Ensures, IsLive}
use oxford_sigmod.Consistency.Rules.{
  Ensures-bind, Ensures-bdb, Ensures-object_at, Ensures-structure_at, Ensures-option,
}
use oxford_sigmod.Consistency.Names.{lookup-All}
use oxford_sigmod.Consistency.Heap.{Replaces, IsConsistent-replace, IsConsistent-set_object}
use oxford_sigmod.Consistency.Handles.{NotOpen, Consistent-set_closed}

module _ {B : Bdb} where
  -- The handle that is being opened, once its database is set.
  abbrev Based : ℕ → World B → Type 0
  Based h w = (i : Index) × (w.objects h ≡ some i) × (i.closed ≡ true) × HasDb i

  -- The handle that is being opened, once its structure is set.
  abbrev Opening : ℕ → ℕ → World B → Type 0
  Opening h p w =
      (i : Index) × (w.objects h ≡ some i)
      × (i.closed ≡ true)
      × (i.structure ≡ some p)
      × IsLive w.structures w.next_structure p
      × HasDb i

  abbrev Registered : ℕ → ℕ → World B → Type 0
  Registered h p w =
      (i : Index) × (s : IndexStructure) × (w.objects h ≡ some i)
      × (i.structure ≡ some p)
      × (w.structures p ≡ some s)
      × (member h s.handles ≡ true)
      × (p < w.next_structure)
      × HasDb i

  Replaces-register :
      (h p : ℕ) (s : IndexStructure) (w : World B)
      → w.structures p ≡ some s
      → Consistent w
      → Replaces w.objects p s (register_handle h s)
  unfolding register_handle
  Replaces-register h p s w found c = record {
    still_safe = c.safe p s found;
    still_listed = λ g i at open_handle uses m. ground (arith, m, member-insert g h s.handles);
  }

  abbrev set_open : ℕ → M B (Unit {0})
  set_open h = do i ← object_at h; set_object h (some (record i { closed = false }))

  set_open-Keeps :
      (h p : ℕ) (w : World B)
      → Consistent w
      → Registered h p w
      → Ensures (λ _ w'. Unit {0}) (set_open h w)
  set_open-Keeps h p w c (i, s, at, uses, found, lists, below, (db, based)) =
      Ensures-object_at (λ _ w'. Unit {0}) h
        (λ j. set_object h (some (record j { closed = false }))) w c
        λ j at_j. (
          IsConsistent-set_object c h (some (record j { closed = false })) λ k e open_handle. (
            p,
            s,
            ground (arith, e, at, at_j, uses),
            found,
            lists,
            below,
            (db, ground (arith, e, at, at_j, based)),
          ),
          tt,
        )

  register_open-Keeps :
      (h db p : ℕ) (name : String) (w : World B)
      → Consistent w
      → Opening h p w
      → Ensures
          (λ _ w'. Unit {0})
          ((do
            s ← structure_at p
            set_structure p (some (register_handle h s))
            bdb (B.db_open db name false)
            set_open h
            pure k_ok)
            w)
  unfolding register_handle
  register_open-Keeps h db p name w c (i, at, closed, uses, (s, found, below), based) =
      let opened : M B ErrorCode = set_open h >> pure k_ok in
      Ensures-structure_at (λ _ w'. Unit {0}) p
        (λ t.
          set_structure p (some (register_handle h t)) >> (bdb (B.db_open db name false) >> opened))
        w c
        λ t found_t.
          let u : World B = record w {
            structures = update w.structures p (some (register_handle h t));
          } in
          let cu : Consistent u =
            IsConsistent-replace c p t (register_handle h t) found_t
              (Replaces-register h p t w found_t c) in
          Ensures-bind (λ _ w'. Registered h p w') (λ _ w'. Unit {0})
            (bdb (B.db_open db name false)) (λ _. opened) u
            (Ensures-bdb (λ _ w'. Registered h p w') (B.db_open db name false) u cu
              λ _ e. (
                i,
                register_handle h t,
                at,
                uses,
                ground arith,
                ground (arith, member-insert h h t.handles),
                below,
                based,
              ))
            λ _ v cv r.
              Ensures-bind (λ _ w'. Unit {0}) (λ _ w'. Unit {0}) (set_open h) (λ _. pure k_ok) v
                (set_open-Keeps h p v cv r) (λ _ v' cv' _. (cv', tt))

  abbrev set_pointer : ℕ → ℕ → M B (Unit {0})
  set_pointer h p = do i ← object_at h; set_object h (some (record i { structure = some p }))

  set_pointer-Ensures :
      (h p : ℕ) (w : World B)
      → Consistent w
      → Based h w
      → IsLive w.structures w.next_structure p
      → Ensures (λ _ w'. Opening h p w') (set_pointer h p w)
  set_pointer-Ensures h p w c ready live =
      Ensures-object_at (λ _ w'. Opening h p w') h
        (λ i. set_object h (some (record i { structure = some p }))) w c
        λ i at.
          let (j, at_j, closed_j, (db, based)) = ready in
          let closed : i.closed ≡ true = ground (arith, at, at_j, closed_j) in
          let i' : Index = record i { structure = some p } in
          (
            Consistent-set_closed w h i' c closed,
            (i', ground arith, closed, refl, live, (db, ground (arith, at, at_j, based))),
          )

  open_found-Keeps :
      (h db p : ℕ) (name : String) (w : World B)
      → Consistent w
      → Based h w
      → IsLive w.structures w.next_structure p
      → Ensures (λ _ w'. Unit {0}) (open_found h db p name w)
  unfolding open_found
  open_found-Keeps h db p name w c ready live =
      Ensures-bind (λ _ w'. Opening h p w') (λ _ w'. Unit {0}) (set_pointer h p)
        (λ _. do
          s ← structure_at p
          set_structure p (some (register_handle h s))
          bdb (B.db_open db name false)
          set_open h
          pure k_ok)
        w (set_pointer-Ensures h p w c ready live)
        (λ _ u cu q. register_open-Keeps h db p name u cu q)

  abbrev set_db : ℕ → ℕ → M B (Unit {0})
  set_db h db = do i ← object_at h; set_object h (some (record i { db = some db }))

  set_db-Ensures :
      (h db : ℕ) (w : World B)
      → Consistent w
      → NotOpen h w
      → Ensures (λ _ w'. Based h w') (set_db h db w)
  set_db-Ensures h db w c not_open =
      Ensures-object_at (λ _ w'. Based h w') h
        (λ i. set_object h (some (record i { db = some db }))) w c
        λ i at.
          let closed : i.closed ≡ true = not_open i at in
          let i' : Index = record i { db = some db } in
          (Consistent-set_closed w h i' c closed, (i', ground arith, closed, (db, refl)))

  pub open_index-Keeps :
      (h : ℕ) (name : String) (w : World B)
      → Consistent w
      → NotOpen h w
      → Ensures (λ _ w'. Unit {0}) (open_index h name w)
  unfolding open_index find
  open_index-Keeps h name w c not_open =
      let lookup_and_open : ℕ → M B ErrorCode = λ db. find name >>= λ found. elim found [
        | none ↦ pure k_error_unknown_index
        | some p ↦ open_found h db p name
      ] in
      Ensures-bind (λ _ w'. NotOpen h w') (λ _ w'. Unit {0}) (bdb B.db_create)
        (λ db. set_db h db >> lookup_and_open db) w
        (Ensures-bdb (λ _ w'. NotOpen h w') B.db_create w c (λ db e. not_open))
        λ db u cu closed.
          Ensures-bind (λ _ w'. Based h w') (λ _ w'. Unit {0}) (set_db h db)
            (λ _. lookup_and_open db) u (set_db-Ensures h db u cu closed)
            λ _ v cv still.
              Ensures-option (λ _ w'. Unit {0}) (lookup name v.indices) (pure k_error_unknown_index)
                (λ p. open_found h db p name) v (λ _. (cv, tt))
                λ p named. open_found-Keeps h db p name v cv still (
                  lookup-All (IsLive v.structures v.next_structure) name p v.indices named cv.named)
