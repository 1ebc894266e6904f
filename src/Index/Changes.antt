-- ===== src/Index/Changes.antt =====
-- What `Update` and `Delete` by key leave of the rows of an index (example/Index.cc).
use oxford_sigmod.Base.{
  ℕ, ◌<◌, true, Option, some, List, [], ◌∷◌, ◌++◌, ◌≡◌, refl, ap, ◌∙◌, arith, length, Ordering, All,
  append-nil, map,
}
use oxford_sigmod.Types.{Record, ErrorCode, k_ok, Block}
use oxford_sigmod.Bdb.{Bdb, Row, Code, Dbt}
use oxford_sigmod.Bdb.Laws.{Cursors, unwind}
use oxford_sigmod.Structure.{below, IndexStructure}
use oxford_sigmod.Structure.Encoding.{IsExact}
use oxford_sigmod.World.{World, M, returned, bdb}
use oxford_sigmod.Index.Modify.{
  modify, modify_matching, in_transaction, delete_record, update_record, match_duplicates,
  ignore_payload,
}
use oxford_sigmod.Index.Scan.{push, unwind-push, Changes, change_all}
use oxford_sigmod.Index.Lookup.{order_to}
use oxford_sigmod.Index.Effect.{Opened, in_transaction-Leaves, modify_matching-duplicates}

abbrev pub with_value : Block → Row → Row
with_value payload r = record r { value = payload }

change_all-drop : (passed rows : List Row) → change_all (λ r. []) passed rows ≡ passed
change_all-drop passed [] = refl
change_all-drop passed (r ∷ rows) = change_all-drop passed rows

change_all-put :
    (payload : Block) (passed rows : List Row)
    → unwind (change_all (λ r. with_value payload r ∷ []) passed rows) []
      ≡ unwind passed (map (with_value payload) rows)
change_all-put payload passed [] = refl
change_all-put payload passed (r ∷ rows) =
    change_all-put payload (with_value payload r ∷ passed) rows

module _ {B : Bdb} {w : World B} {h p db : ℕ} {s : IndexStructure} (opened : Opened w h p db s)
    (L : Cursors B (below s.type)) (r : Record) (exact : IsExact s.type r.key) where
  open L use {rows, deletes, puts}

  pub modify-runs :
      (fuel : ℕ) (tx : Option ℕ) (flags : ℕ) (act : ℕ → Dbt → M B Code) (error : ErrorCode)
      → modify fuel tx h r flags act error w
        ≡ in_transaction tx p db (modify_matching fuel tx p s.type act error r flags) w
  unfolding modify
  modify-runs fuel tx flags act error =
      ground (arith, opened.at_object, opened.at_db, opened.at_structure, opened.found)

  pub del-Changes : (c : ℕ) → Changes L db c (λ cursor key. bdb (B.cursor_del cursor)) (λ x. [])
  del-Changes c v z k x q e on =
      let (e', deleted, on') = deletes x q e on in (e', ground (arith, deleted), on')

  pub put-Changes :
      (payload : Block) (c : ℕ)
      → Changes L db c
          (λ cursor key. bdb (B.cursor_put_current cursor key payload))
          (λ x. with_value payload x ∷ [])
  put-Changes payload c v z k x q e on =
      let (e', put, on') = puts k payload x q e on in (e', ground (arith, put), on')

  -- The first row with the record's key is `x`: those before it have lower keys.
  pub record FirstMatch (before : List Row) (x : Row) (after : List Row) : Type 0 where
    pub initial : rows db w.env ≡ before ++ x ∷ after
    pub lower : All (λ y. order_to s.type r.key y ≡ some Ordering.lt) before
    pub equal : order_to s.type r.key x ≡ some Ordering.eq

  module _ (before : List Row) (x : Row) (after : List Row) (first : FirstMatch before x after)
      (fuel : ℕ) (tx : Option ℕ) (flags : ℕ) (by_key : ignore_payload flags ≡ true) where
    modify-duplicates :
        (act : ℕ → Dbt → M B Code) (f : Row → List Row) (error : ErrorCode)
        → ((c : ℕ) → Changes L db c act f)
        → match_duplicates flags ≡ true
        → length after < fuel
        → (w' : World B) × (modify fuel tx h r flags act error w ≡ (returned k_ok, w'))
          × (rows db w'.env ≡ unwind (change_all f (f x ++ push before []) after) [])
    modify-duplicates act f error changes many enough =
        let (F, e', ran, _, final) =
          in_transaction-Leaves L db tx p (before ++ x ∷ after)
            (unwind (change_all f (f x ++ push before []) after) []) k_ok
            (modify_matching fuel tx p s.type act error r flags) w s
            (modify_matching-duplicates s.type L db r.key exact act f changes before x after
              first.lower first.equal fuel tx p error r.payload flags many by_key enough)
            opened.found opened.writable first.initial in
        (record w { structures = F; env = e' }, modify-runs fuel tx flags act error ∙ ran, final)

    -- With both flags `Index::Delete` returns kOk and removes the first record whose key equals
    -- the record's key and every record after it, whatever their keys are. The flags have both
    -- kIgnorePayload and kMatchDuplicates, the key has no NULL and exactly the bytes of its
    -- types, the handle has a database and an index structure that is not read-only, the rows
    -- before that record have lower keys, Berkeley DB meets no lock conflict, and the fuel
    -- exceeds the number of records after the first match.
    pub delete_record-removes_rest :
        match_duplicates flags ≡ true
        → length after < fuel
        → (w' : World B) × (delete_record fuel tx h r flags w ≡ (returned k_ok, w'))
          × (rows db w'.env ≡ before)
    unfolding delete_record
    delete_record-removes_rest many enough =
        let (w', ran, final) =
          modify-duplicates (λ cursor key. bdb (B.cursor_del cursor)) (λ y. [])
            ErrorCode.k_error_generic_failure del-Changes many enough in
        (
          w',
          ran,
          final
              ∙ ap (λ (q : List Row). unwind q []) (change_all-drop (push before []) after)
              ∙ unwind-push before [] []
              ∙ append-nil before,
        )

    -- With both flags `Index::Update` returns kOk and gives the new payload to the first record
    -- whose key equals the record's key and to every record after it, whatever their keys are.
    -- The flags have both kIgnorePayload and kMatchDuplicates, the key has no NULL and exactly
    -- the bytes of its types, the handle has a database and an index structure that is not
    -- read-only, the rows before that record have lower keys, Berkeley DB meets no lock conflict,
    -- and the fuel exceeds the number of records after the first match.
    pub update_record-changes_rest :
        (payload : Block)
        → match_duplicates flags ≡ true
        → length after < fuel
        → (w' : World B) × (update_record fuel tx h r payload flags w ≡ (returned k_ok, w'))
          × (rows db w'.env ≡ before ++ map (with_value payload) (x ∷ after))
    unfolding update_record
    update_record-changes_rest payload many enough =
        let (w', ran, final) =
          modify-duplicates (λ cursor key. bdb (B.cursor_put_current cursor key payload))
            (λ y. with_value payload y ∷ []) ErrorCode.k_error_not_found (put-Changes payload) many
            enough in
        (
          w',
          ran,
          final
              ∙ change_all-put payload (with_value payload x ∷ push before []) after
              ∙ unwind-push before [] (with_value payload x ∷ map (with_value payload) after),
        )
