-- ===== src/Iterator/Order.antt =====
-- Rows that are added to sorted rows (example/Iterator.cc, over the order of example/Index.cc).
use oxford_sigmod.Base.{
  suc, Bool, true, false, List, [], ◌∷◌, ◌≡◌, inl, inr, refl, arith, length, All, Bool-cases,
}
use oxford_sigmod.Types.{AttributeType}
use oxford_sigmod.Util.Lexicographic.{lex-Chains, lex-flip, keycmp-lex}
use oxford_sigmod.Bdb.{Dbt, Row}
use oxford_sigmod.Bdb.Laws.{put_row}
use oxford_sigmod.Structure.{compare_dbts, below}
use oxford_sigmod.Iterator.Range.{get_key-HasTypes}
use oxford_sigmod.Iterator.Rows.{filter, IsNotAfter, IsSorted}

pub length-put_row :
    (less : Dbt → Dbt → Bool) (r : Row) (rows : List Row)
    → length (put_row less r rows) ≡ suc (length rows)
unfolding put_row
length-put_row less r [] = refl
length-put_row less r (x ∷ rows) = ground (arith, length-put_row less r rows)

module _ (types : List AttributeType) where
  pub below-IsNotAfter : (x y : Row) → below types x.key y.key ≡ true → IsNotAfter types x y
  below-IsNotAfter x y low = ground arith

  not_below-IsNotAfter : (x y : Row) → below types y.key x.key ≡ false → IsNotAfter types x y
  unfolding compare_dbts
  not_below-IsNotAfter x y high =
      let hx = get_key-HasTypes types x.key in
      let hy = get_key-HasTypes types y.key in
      ground
        (arith, keycmp-lex types _ _ hx hy, keycmp-lex types _ _ hy hx, lex-flip types _ _ hx hy)

  pub below-IsNotAfter-below :
      (x y z : Row)
      → below types x.key y.key ≡ true
      → IsNotAfter types y z
      → below types x.key z.key ≡ true
  unfolding compare_dbts
  below-IsNotAfter-below x y z low sorted =
      let hx = get_key-HasTypes types x.key in
      let hy = get_key-HasTypes types y.key in
      let hz = get_key-HasTypes types z.key in
      ground (
        arith,
        keycmp-lex types _ _ hx hy,
        keycmp-lex types _ _ hy hz,
        keycmp-lex types _ _ hx hz,
        lex-Chains types _ _ _ hx hy hz,
      )

  All-below :
      (r x : Row) (rows : List Row)
      → below types r.key x.key ≡ true
      → All (IsNotAfter types x) rows
      → All (λ y. below types r.key y.key ≡ true) rows
  All-below r x [] low sorted = tt
  All-below r x (y ∷ rows) low (first, sorted) =
      (below-IsNotAfter-below r x y low first, All-below r x rows low sorted)

  All-IsNotAfter :
      (r : Row) (rows : List Row)
      → All (λ y. below types r.key y.key ≡ true) rows
      → All (IsNotAfter types r) rows
  All-IsNotAfter r [] h = tt
  All-IsNotAfter r (y ∷ rows) h = (below-IsNotAfter r y h.0, All-IsNotAfter r rows h.1)

  All-put_row :
      (P : Row → Type 0) (less : Dbt → Dbt → Bool) (r : Row) (rows : List Row)
      → P r
      → All P rows
      → All P (put_row less r rows)
  unfolding put_row
  All-put_row P less r [] h hs = (h, tt)
  All-put_row P less r (x ∷ rows) h hs = elim (Bool-cases (less r.key x.key)) [
    | inl low ↦ rw low (h, hs)
    | inr high ↦ rw high (hs.0, All-put_row P less r rows h hs.1)
  ]

  -- Putting a row keeps the rows sorted.
  pub put_row-IsSorted :
      (r : Row) (rows : List Row)
      → IsSorted types rows
      → IsSorted types (put_row (below types) r rows)
  unfolding put_row
  put_row-IsSorted r [] sorted = (tt, tt)
  put_row-IsSorted r (x ∷ rows) (first, sorted) = elim (Bool-cases (below types r.key x.key)) [
    | inl low ↦ rw low (
      (below-IsNotAfter r x low, All-IsNotAfter r rows (All-below r x rows low first)),
      (first, sorted),
    )
    | inr high ↦ rw high (
      All-put_row (IsNotAfter types x) (below types) r rows (not_below-IsNotAfter x r high) first,
      put_row-IsSorted r rows sorted,
    )
  ]

  put_row-first :
      (p : Row → Bool) (r : Row) (rows : List Row)
      → All (λ y. below types r.key y.key ≡ true) rows
      → put_row (below types) r (filter p rows) ≡ r ∷ filter p rows
  unfolding put_row
  put_row-first p r [] h = refl
  put_row-first p r (y ∷ rows) h = ground (arith, h.0, put_row-first p r rows h.1)

  -- A row that the filter takes is put into the filtered rows as it is into all.
  pub filter-put_row :
      (p : Row → Bool) (r : Row) (rows : List Row)
      → IsSorted types rows
      → p r ≡ true
      → filter p (put_row (below types) r rows) ≡ put_row (below types) r (filter p rows)
  unfolding put_row
  filter-put_row p r [] sorted hit = ground (arith, hit)
  filter-put_row p r (x ∷ rows) (first, sorted) hit = elim (Bool-cases (below types r.key x.key)) [
    | inl low ↦ ground (arith, hit, low, put_row-first p r rows (All-below r x rows low first))
    | inr high ↦ ground (arith, hit, high, filter-put_row p r rows sorted hit)
  ]
