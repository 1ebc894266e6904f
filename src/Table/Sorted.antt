-- ===== src/Table/Sorted.antt =====
-- Changes of the first matching row: the rows stay sorted, and are not more than before
-- (example/Index.cc).
use oxford_sigmod.Base.{
  ◌≤◌, Bool, true, false, List, [], ◌∷◌, ◌++◌, ◌≡◌, ◌⊎◌, arith, sym, length, All, Bool-cases, inl,
  inr,
}
use mathlib.Core.Path.{subst}
use oxford_sigmod.Types.{AttributeType, Block}
use oxford_sigmod.Bdb.{Row, Dbt}
use oxford_sigmod.Index.Match.{change_first}
use oxford_sigmod.Index.Single.{outcome}
use oxford_sigmod.Index.Changes.{with_value}
use oxford_sigmod.Iterator.Rows.{IsNotAfter, IsSorted}

-- The row goes, or gets another payload.
abbrev pub IsChange : (Row → List Row) → Type 0
IsChange f = (x : Row) → (f x ≡ []) ⊎ ((payload : Block) × (f x ≡ with_value payload x ∷ []))

module _ (test : Row → Bool) (f : Row → List Row) where
  -- The rows after the change.
  abbrev pub left : List Row → List Row
  left rows = (outcome (change_first test f rows) rows).1

  left-hit : (x : Row) (rows : List Row) → test x ≡ true → left (x ∷ rows) ≡ f x ++ rows
  left-hit x rows hit = ground (arith, hit)

  left-miss : (x : Row) (rows : List Row) → test x ≡ false → left (x ∷ rows) ≡ x ∷ left rows
  left-miss x rows miss = ground (arith, miss)

  module _ (change : IsChange f) where
    pub length-left : (rows : List Row) → length (left rows) ≤ length rows
    length-left [] = omega arith
    length-left (x ∷ rows) = elim (change x) [
      | inl gone ↦ ground (arith, gone, length-left rows)
      | inr (payload, same) ↦ ground (arith, same, length-left rows)
    ]

    -- What holds for the keys of the rows holds for those of the rows that are left.
    All-left :
        (P : Dbt → Type 0) (rows : List Row)
        → All (λ x. P x.key) rows
        → All (λ x. P x.key) (left rows)
    All-left P [] h = h
    All-left P (x ∷ rows) h = elim (Bool-cases (test x)) [
      | inl hit ↦
          subst (All (λ y. P y.key)) (sym (left-hit x rows hit))
            (elim (change x) [ inl gone ↦ rw gone h.1 | inr (payload, same) ↦ rw same h ])
      | inr miss ↦
          subst (All (λ y. P y.key)) (sym (left-miss x rows miss)) (h.0, All-left P rows h.1)
    ]

    pub left-IsSorted :
        (types : List AttributeType) (rows : List Row)
        → IsSorted types rows
        → IsSorted types (left rows)
    left-IsSorted types [] h = h
    left-IsSorted types (x ∷ rows) h = elim (Bool-cases (test x)) [
      | inl hit ↦
          subst (IsSorted types) (sym (left-hit x rows hit))
            (elim (change x) [ inl gone ↦ rw gone h.1 | inr (payload, same) ↦ rw same h ])
      | inr miss ↦ subst (IsSorted types) (sym (left-miss x rows miss)) (
        All-left (λ key. IsNotAfter types x (record x { key = key })) rows h.0,
        left-IsSorted types rows h.1,
      )
    ]
