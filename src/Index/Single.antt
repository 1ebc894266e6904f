-- ===== src/Index/Single.antt =====
-- `Update` and `Delete` without kMatchDuplicates (example/Index.cc), against a change of the first
-- matching row of a list.
use oxford_sigmod.Base.{
  ℕ, true, false, Option, none, some, List, [], ◌∷◌, ◌++◌, ◌≡◌, refl, arith, sym, ◌∙◌, ap, All, inl,
  inr,
}
use mathlib.Core.Path.{subst}
use oxford_sigmod.Types.{ErrorCode, k_ok, k_error_not_found, AttributeType, Record, Block}
use oxford_sigmod.Bdb.{Bdb, Dbt, Row, Code}
use oxford_sigmod.Bdb.Laws.{Cursors, unwind}
use oxford_sigmod.Structure.{IndexStructure, below}
use oxford_sigmod.Structure.Encoding.{IsExact}
use oxford_sigmod.World.{World, M, returned, bdb}
use oxford_sigmod.Index.Modify.{
  modify, modify_matching, delete_record, update_record, match_duplicates,
}
use oxford_sigmod.Index.Scan.{push, unwind-push, Changes}
use oxford_sigmod.Index.Lookup.{IsTouched, register_parent-runs}
use oxford_sigmod.Index.Effect.{Opened, Leaves, in_transaction-Leaves}
use oxford_sigmod.Index.Changes.{with_value, modify-runs, del-Changes, put-Changes}
use oxford_sigmod.Index.Match.{matches, change_first, change_first-none, change_first-some}
use oxford_sigmod.Index.Find.{find_first-Finds, find_first-Misses}
use oxford_sigmod.Iterator.Rows.{IsSorted, split}

-- The code and the rows that a change of the first matching row leaves.
abbrev pub outcome : Option (List Row) → List Row → ErrorCode × List Row
outcome none rows = (k_error_not_found, rows)
outcome (some changed) rows = (k_ok, changed)

module _ {B : Bdb} (types : List AttributeType) (L : Cursors B (below types)) (db : ℕ) (r : Record)
    (exact : IsExact types r.key) (act : ℕ → Dbt → M B Code) (f : Row → List Row)
    (changes : (c : ℕ) → Changes L db c act f)
    (in_place : (x : Row) (passed rows : List Row)
      → unwind (f x ++ passed) rows ≡ unwind passed (f x ++ rows))
    (flags : ℕ) (single : match_duplicates flags ≡ false) where
  open L use {On, rows, on_rows}

  modify_matching-hits :
      (fuel : ℕ) (tx : Option ℕ) (p : ℕ) (error : ErrorCode) (before : List Row) (x : Row)
      (after : List Row)
      → IsSorted types (before ++ x ∷ after)
      → All (λ y. matches types r flags y ≡ false) before
      → matches types r flags x ≡ true
      → Leaves L db p
          (before ++ x ∷ after)
          (before ++ (f x ++ after))
          k_ok
          (modify_matching fuel tx p types act error r flags)
  unfolding modify_matching
  modify_matching-hits fuel tx p error before x after sorted others hit c w s at on =
      let (e1, found, on1) =
        find_first-Finds types L db c r exact flags before x after w sorted others hit on in
      let (e2, acted, on2) =
        changes c (record w { env = e1 }) _ x.key x (push before []) refl on1 in
      let (F, registered, touched) = register_parent-runs p tx (record w { env = e2 }) s at in
      (
        F,
        e2,
        ground (arith, found, acted, registered, single),
        touched,
        on_rows on2 ∙ in_place x (push before []) after ∙ unwind-push before [] (f x ++ after),
      )

  modify_matching-misses :
      (fuel : ℕ) (tx : Option ℕ) (p : ℕ) (error : ErrorCode) (all_rows : List Row)
      → IsSorted types all_rows
      → All (λ y. matches types r flags y ≡ false) all_rows
      → Leaves L db p all_rows all_rows k_error_not_found
          (modify_matching fuel tx p types act error r flags)
  unfolding modify_matching
  modify_matching-misses fuel tx p error all_rows sorted others c w s at on =
      let (e1, row, z, missed, on1, same) =
        find_first-Misses types L db c r exact flags all_rows w sorted others on in
      (w.structures, e1, ground (arith, missed), (s.transactions, at), on_rows on1 ∙ same)

  -- What the call leaves is what the change of the first matching row leaves.
  pub modify_matching-Leaves :
      (fuel : ℕ) (tx : Option ℕ) (p : ℕ) (error : ErrorCode) (all_rows : List Row)
      → IsSorted types all_rows
      → let result = outcome (change_first (matches types r flags) f all_rows) all_rows in
        Leaves L db p all_rows result.1 result.0 (modify_matching fuel tx p types act error r flags)
  modify_matching-Leaves fuel tx p error all_rows sorted =
      let body = modify_matching fuel tx p types act error r flags in
      let holds : Option (List Row) → Type 0 = λ changed.
        Leaves L db p all_rows (outcome changed all_rows).1 (outcome changed all_rows).0 body in
      elim (split (matches types r flags) all_rows)
        as (λ _. holds (change_first (matches types r flags) f all_rows)) [
          | inl (others, _) ↦
              subst holds (sym (change_first-none (matches types r flags) f all_rows others))
                (modify_matching-misses fuel tx p error all_rows sorted others)
          | inr (before, x, after, same, hit, others, _) ↦
              subst holds
                (sym (
                  ap (change_first (matches types r flags) f) same
                  ∙ change_first-some (matches types r flags) f before x after others hit))
                (subst (λ q. Leaves L db p q (before ++ (f x ++ after)) k_ok body) (sym same)
                  (modify_matching-hits fuel tx p error before x after
                    (subst (IsSorted types) same sorted) others hit))
        ]

module _ {B : Bdb} {w : World B} {h p db : ℕ} {s : IndexStructure} (opened : Opened w h p db s)
    (L : Cursors B (below s.type)) (r : Record) (exact : IsExact s.type r.key) where
  open L use {rows}

  -- A call returns the code of the result and leaves its rows; the handles, the iterators and the map
  -- stay as they are, and the structure of the handle keeps all but its set of transactions. Nothing
  -- is said of other structures.
  abbrev pub Leads : M B ErrorCode → ErrorCode × List Row → Type 0
  Leads m result =
      (F : ℕ → Option IndexStructure) × (e' : B.Env) × (m w
        ≡ (returned result.0, record w { structures = F; env = e' }))
      × IsTouched p s F
      × (rows db e' ≡ result.1)

  module _ (fuel : ℕ) (tx : Option ℕ) (flags : ℕ) (single : match_duplicates flags ≡ false)
      (sorted : IsSorted s.type (rows db w.env)) where
    abbrev changed_rows : (Row → List Row) → ErrorCode × List Row
    changed_rows f =
        outcome (change_first (matches s.type r flags) f (rows db w.env)) (rows db w.env)

    modify-Leads :
        (act : ℕ → Dbt → M B Code) (f : Row → List Row) (error : ErrorCode)
        → ((c : ℕ) → Changes L db c act f)
        → ((x : Row) (passed behind : List Row)
            → unwind (f x ++ passed) behind ≡ unwind passed (f x ++ behind))
        → Leads (modify fuel tx h r flags act error) (changed_rows f)
    modify-Leads act f error changes in_place =
        let (F, e', ran, touched, final) =
          in_transaction-Leaves L db tx p (rows db w.env) (changed_rows f).1 (changed_rows f).0
            (modify_matching fuel tx p s.type act error r flags) w s
            (modify_matching-Leaves s.type L db r exact act f changes in_place flags single fuel tx
              p error (rows db w.env) sorted)
            opened.found opened.writable refl in
        (F, e', modify-runs opened L r exact fuel tx flags act error ∙ ran, touched, final)

    -- `Index::Delete` without kMatchDuplicates removes the first record with the record's key and
    -- payload, or with its key alone if kIgnorePayload is set, and returns kOk; if there is none it
    -- returns kErrorNotFound and all rows stay. The handles, the iterators and the map of indices
    -- stay as they are, and of the structure of the handle only the set of transactions changes.
    -- The key has no NULL and exactly the bytes of its types, the handle has a database and an
    -- index structure that is not read-only, the rows are sorted, and Berkeley DB meets no lock
    -- conflict.
    pub delete_record-Leads : Leads (delete_record fuel tx h r flags) (changed_rows (λ x. []))
    unfolding delete_record
    delete_record-Leads =
        modify-Leads (λ cursor key. bdb (B.cursor_del cursor)) (λ x. [])
          ErrorCode.k_error_generic_failure (del-Changes opened L r exact) (λ x passed behind. refl)

    -- `Index::Update` without kMatchDuplicates gives the new payload to the first record with the
    -- record's key and payload, or with its key alone if kIgnorePayload is set, and returns kOk; if
    -- there is none it returns kErrorNotFound and all rows stay. The handles, the iterators
    -- and the map of indices stay as they are, and of the structure of the handle only the set of
    -- transactions changes. The key has no NULL and exactly the bytes of its types, the handle has
    -- a database and an index structure that is not read-only, the rows are sorted, and Berkeley DB
    -- meets no lock conflict.
    pub update_record-Leads :
        (payload : Block)
        → Leads
            (update_record fuel tx h r payload flags)
            (changed_rows (λ x. with_value payload x ∷ []))
    unfolding update_record
    update_record-Leads payload =
        modify-Leads (λ cursor key. bdb (B.cursor_put_current cursor key payload))
          (λ x. with_value payload x ∷ []) ErrorCode.k_error_not_found
          (put-Changes opened L r exact payload) (λ x passed behind. refl)
