-- ===== src/Table/Changes.antt =====
-- InsertRecord, DeleteRecord and UpdateRecord on a table (example/BDBImpl.cc and example/Index.cc).
use oxford_sigmod.Base.{
  ℕ, false, Bool, true, Option, some, List, [], ◌∷◌, ◌≡◌, ◌∙◌, ap, arith, refl, sym, length, inl,
  inr,
}
use mathlib.Core.Path.{subst}
use oxford_sigmod.Types.{ErrorCode, k_ok, Record, Block}
use oxford_sigmod.Bdb.{Bdb, Row}
use oxford_sigmod.Bdb.Laws.{Cursors, put_row}
use oxford_sigmod.Structure.{IndexStructure, below}
use oxford_sigmod.Structure.Encoding.{IsExact}
use oxford_sigmod.World.{World, M, returned}
use oxford_sigmod.Index.Modify
use oxford_sigmod.Index.Modify.{match_duplicates}
use oxford_sigmod.Index.Match.{matches, change_first}
use oxford_sigmod.Index.Changes.{with_value}
use oxford_sigmod.Index.Single.{outcome, Leads, delete_record-Leads, update_record-Leads}
use oxford_sigmod.Iterator.Rows.{IsSorted}
use oxford_sigmod.Iterator.Order.{put_row-IsSorted}
use oxford_sigmod.Api.{insert_record, delete_record, update_record}
use oxford_sigmod.Api.Insertion.{row_of, compatible-opened, insert_record-puts}
use oxford_sigmod.Table.{flags_of}
use oxford_sigmod.Table.State.{IsTable, opened, written-IsTable}
use oxford_sigmod.Table.Sorted.{IsChange, left-IsSorted}

flags_of-single : (by_key : Bool) → match_duplicates (flags_of by_key) ≡ false
flags_of-single true = refl
flags_of-single false = refl

module _ {B : Bdb} {h p db : ℕ} {s : IndexStructure} {L : Cursors B (below s.type)} {w : World B}
    {rows : List Row} (table : IsTable h p db s L w rows) (tx : Option ℕ) (r : Record) where
  -- The call returns the code and leaves a table of the rows.
  abbrev pub Answers : M B ErrorCode → ErrorCode × List Row → Type 0
  Answers m result =
      (w' : World B) × (m w ≡ (returned result.0, w')) × IsTable h p db s L w' result.1

  pub insert_record-Answers :
      length r.key ≡ length s.type
      → Answers
          (insert_record tx (some h) (some r))
          (k_ok, put_row (below s.type) (row_of s r) rows)
  insert_record-Answers fits =
      let (F, e', ran, touched, final) =
        insert_record-puts (opened table) L r tx table.is_open fits in
      (
        record w { structures = F; env = e' },
        ran,
        written-IsTable table F e' _ touched
            (final ∙ ap (put_row (below s.type) (row_of s r)) table.same_rows)
            (put_row-IsSorted s.type (row_of s r) rows table.sorted),
      )

  module _ (exact : IsExact s.type r.key) (fits : length r.key ≡ length s.type) (fuel : ℕ)
      (by_key : Bool) where
    -- The first matching row is changed.
    abbrev pub first_changed : (Row → List Row) → List Row → ErrorCode × List Row
    first_changed f all_rows =
        outcome (change_first (matches s.type r (flags_of by_key)) f all_rows) all_rows

    changes_lem :
        (m m' : M B ErrorCode) (f : Row → List Row)
        → IsChange f
        → Leads (opened table) L r exact m (first_changed f (L.rows db w.env))
        → ((w' : World B) → (c : ErrorCode) → m w ≡ (returned c, w') → m' w ≡ (returned c, w'))
        → Answers m' (first_changed f rows)
    changes_lem m m' f change leads calls =
        let (F, e', ran, touched, final) =
          subst (λ all_rows. Leads (opened table) L r exact m (first_changed f all_rows))
            table.same_rows leads in
        (
          record w { structures = F; env = e' },
          calls _ _ ran,
          written-IsTable table F e' _ touched final (
              left-IsSorted (matches s.type r (flags_of by_key)) f change s.type rows table.sorted),
        )

    here : IsSorted s.type (L.rows db w.env)
    here = subst (IsSorted s.type) (sym table.same_rows) table.sorted

    pub delete_record-Answers :
        Answers
          (delete_record fuel tx (some h) (some r) (flags_of by_key))
          (first_changed (λ x. []) rows)
    unfolding delete_record
    delete_record-Answers =
        let fit = compatible-opened (opened table) L r table.is_open fits in
        changes_lem (Modify.delete_record fuel tx h r (flags_of by_key))
          (delete_record fuel tx (some h) (some r) (flags_of by_key)) (λ x. []) (λ x. inl refl)
          (delete_record-Leads (opened table) L r exact fuel tx (flags_of by_key)
            (flags_of-single by_key) here)
          λ w' c ran. ground (arith, table.at_object, table.is_open, fit, ran)

    pub update_record-Answers :
        (payload : Block)
        → Answers
            (update_record fuel tx (some h) (some r) (some payload) (flags_of by_key))
            (first_changed (λ x. with_value payload x ∷ []) rows)
    unfolding update_record
    update_record-Answers payload =
        let fit = compatible-opened (opened table) L r table.is_open fits in
        changes_lem (Modify.update_record fuel tx h r payload (flags_of by_key))
          (update_record fuel tx (some h) (some r) (some payload) (flags_of by_key))
          (λ x. with_value payload x ∷ []) (λ x. inr (payload, refl))
          (update_record-Leads (opened table) L r exact fuel tx (flags_of by_key)
            (flags_of-single by_key) here payload)
          λ w' c ran. ground (arith, table.at_object, table.is_open, fit, ran)
