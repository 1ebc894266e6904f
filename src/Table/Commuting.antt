-- ===== src/Table/Commuting.antt =====
-- Rows whose keys differ may be put in any order (over the order of keys of example/Index.cc).
use oxford_sigmod.Base.{
  true, false, List, [], ◌∷◌, ◌≡◌, refl, sym, ap, ◌∙◌, arith, All, Bool-cases, inl, inr, ◌⊎◌,
}
use mathlib.Core.Path.{subst}
use mathlib.Core.List.{Permᴰ}
use oxford_sigmod.Types.{AttributeType, Record}
use oxford_sigmod.Util.Lexicographic.{keycmp-lex, lex-flip}
use oxford_sigmod.Bdb.{Row}
use oxford_sigmod.Bdb.Laws.{put_row}
use oxford_sigmod.Structure.{below, compare_dbts}
use oxford_sigmod.Iterator.Range.{get_key-HasTypes}
use oxford_sigmod.Iterator.Order.{below-IsNotAfter, below-IsNotAfter-below}
use oxford_sigmod.Table.{stored}

module _ (types : List AttributeType) (a b : Row) (low : below types a.key b.key ≡ true) where
  not_below_lem : below types b.key a.key ≡ false
  unfolding compare_dbts
  not_below_lem =
      let ha = get_key-HasTypes types a.key in
      let hb = get_key-HasTypes types b.key in
      ground
        (arith, keycmp-lex types _ _ ha hb, keycmp-lex types _ _ hb ha, lex-flip types _ _ ha hb)

  -- The higher of the two does not go in front of a row that the lower one goes behind.
  behind_lem : (x : Row) → below types a.key x.key ≡ false → below types b.key x.key ≡ false
  behind_lem x high = elim (Bool-cases (below types b.key x.key)) [
    | inr behind ↦ behind
    | inl front ↦
        let before = below-IsNotAfter-below types a b x low (below-IsNotAfter types b x front) in
        ground (arith, before, high)
  ]

  put_row-commutes :
      (rows : List Row)
      → put_row (below types) a (put_row (below types) b rows)
        ≡ put_row (below types) b (put_row (below types) a rows)
  unfolding put_row
  put_row-commutes [] = ground (arith, low, not_below_lem)
  put_row-commutes (x ∷ rows) = elim (Bool-cases (below types a.key x.key)) [
    | inl front ↦ elim (Bool-cases (below types b.key x.key)) [
      | inl front' ↦ ground (arith, low, not_below_lem, front, front')
      | inr behind' ↦ ground (arith, low, not_below_lem, front, behind')
    ]
    | inr behind ↦ ground (arith, behind, behind_lem x behind, put_row-commutes rows)
  ]

module _ (types : List AttributeType) where
  -- The records are stored under keys of which one is below the other.
  abbrev pub AreApart : Record → Record → Type 0
  AreApart a b =
      (below types (stored types a).key (stored types b).key ≡ true)
      ⊎ (below types (stored types b).key (stored types a).key ≡ true)

  -- No two of the records have the same key.
  abbrev pub AreDistinct : List Record → Type 0
  AreDistinct [] = Unit {0}
  AreDistinct (a ∷ records) = All (AreApart a) records × AreDistinct records

  -- The records are put one after another.
  abbrev pub put_all : List Record → List Row → List Row
  put_all [] rows = rows
  put_all (a ∷ records) rows = put_all records (put_row (below types) (stored types a) rows)

  swapped_lem :
      (a b : Record) (rows : List Row)
      → AreApart a b
      → put_row (below types) (stored types b) (put_row (below types) (stored types a) rows)
        ≡ put_row (below types) (stored types a) (put_row (below types) (stored types b) rows)
  swapped_lem a b rows (inl low) =
      sym (put_row-commutes types (stored types a) (stored types b) low rows)
  swapped_lem a b rows (inr low) = put_row-commutes types (stored types b) (stored types a) low rows

  AreApart-sym : (a b : Record) → AreApart a b → AreApart b a
  AreApart-sym a b (inl low) = inr low
  AreApart-sym a b (inr low) = inl low

  pub All-perm : (P : Record → Type 0) {xs ys : List Record} → Permᴰ xs ys → All P xs → All P ys
  All-perm P Permᴰ.nil h = tt
  All-perm P (Permᴰ.cons e p) h = (subst P e h.0, All-perm P p h.1)
  All-perm P (Permᴰ.swap e f) h = (subst P f h.1.0, (subst P e h.0, h.1.1))
  All-perm P (Permᴰ.trans p q) h = All-perm P q (All-perm P p h)

  perm-AreDistinct : {xs ys : List Record} → Permᴰ xs ys → AreDistinct xs → AreDistinct ys
  perm-AreDistinct Permᴰ.nil h = tt
  perm-AreDistinct (Permᴰ.cons {a = a} {l₂ = l₂} e p) h =
      (subst (λ x. All (AreApart x) l₂) e (All-perm (AreApart a) p h.0), perm-AreDistinct p h.1)
  perm-AreDistinct (Permᴰ.swap {a = a} {b = b} {b' = b'} {l = l} e f) h =
      let turned : AreDistinct (b ∷ a ∷ l) = ((AreApart-sym a b h.0.0, h.1.0), (h.0.1, h.1.1)) in
      subst (λ x. AreDistinct (x ∷ b' ∷ l)) f (subst (λ x. AreDistinct (b ∷ x ∷ l)) e turned)
  perm-AreDistinct (Permᴰ.trans p q) h = perm-AreDistinct q (perm-AreDistinct p h)

  pub put_all-perm :
      {xs ys : List Record} (p : Permᴰ xs ys) (rows : List Row)
      → AreDistinct xs
      → put_all xs rows ≡ put_all ys rows
  put_all-perm Permᴰ.nil rows h = refl
  put_all-perm (Permᴰ.cons {a = a} {l₂ = l₂} e p) rows h =
      put_all-perm p (put_row (below types) (stored types a) rows) h.1
      ∙ ap (λ x. put_all l₂ (put_row (below types) (stored types x) rows)) e
  put_all-perm (Permᴰ.swap {a = a} {b = b} {b' = b'} {l = l} e f) rows h =
      ap (put_all l) (swapped_lem a b rows h.0.0)
      ∙ ap (λ x. put_all (b ∷ x ∷ l) rows) e
      ∙ ap (λ x. put_all (x ∷ b' ∷ l) rows) f
  put_all-perm (Permᴰ.trans p q) rows h =
      put_all-perm p rows h ∙ put_all-perm q rows (perm-AreDistinct p h)
