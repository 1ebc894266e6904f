-- ===== src/Iterator/Rows.antt =====
-- The rows that a range of keys selects from the sorted rows of an index (example/Iterator.cc): what
-- GetRecords and the calls of GetNext after it are measured against.
use oxford_sigmod.Base.{
  Bool, true, false, not, ◌&&◌, some, List, [], ◌∷◌, ◌++◌, ◌≡◌, ◌≢◌, ◌⊎◌, inl, inr, refl, arith,
  All, Ordering, is_gt, Bool-cases, if◌then◌else◌,
}
use oxford_sigmod.Types.{Key, AttributeType}
use oxford_sigmod.Util.{attribute_exceeds}
use oxford_sigmod.Util.Ranges.{WithinBound}
use oxford_sigmod.Util.Lexicographic.{lex-Chains, keycmp-lex}
use oxford_sigmod.Bdb.{Dbt, Row}
use oxford_sigmod.Structure.{get_key, compare_dbts, below}
use oxford_sigmod.Iterator.Range.{get_key-HasTypes}

abbrev pub filter {ℓ} : {A : Type ℓ} → (A → Bool) → List A → List A
filter p [] = []
filter p (x ∷ xs) = if p x then x ∷ filter p xs else filter p xs

-- Attribute by attribute, no attribute of the key is greater than that of the bound.
abbrev pub within : Key → Key → Bool
within [] _ = true
within (_ ∷ _) [] = true
within (a ∷ j) (b ∷ k) = not (is_gt (attribute_exceeds a b)) && within j k

pub within-WithinBound : (j k : Key) → within j k ≡ true → WithinBound j k
within-WithinBound [] k h = tt
within-WithinBound (a ∷ j) [] h = tt
within-WithinBound (a ∷ j) (b ∷ k) h = (ground arith, within-WithinBound j k (ground arith))

pub within-not_WithinBound : (j k : Key) → within j k ≡ false → ¬ WithinBound j k
within-not_WithinBound [] k h fits = cc h
within-not_WithinBound (a ∷ j) [] h fits = cc h
within-not_WithinBound (a ∷ j) (b ∷ k) h (fit, fits) =
    within-not_WithinBound j k (ground arith) fits

-- The row is not after the other in the order of keys.
abbrev pub IsNotAfter : List AttributeType → Row → Row → Type 0
IsNotAfter types x y = compare_dbts types x.key y.key ≢ some Ordering.gt

-- No row is after a later one.
abbrev pub IsSorted : List AttributeType → List Row → Type 0
IsSorted types [] = Unit {0}
IsSorted types (x ∷ rows) = All (IsNotAfter types x) rows × IsSorted types rows

-- The rows that the filter takes are those before the first, and those it takes behind it.
abbrev pub Split : (Row → Bool) → List Row → Type 0
Split p rows =
    (All (λ y. p y ≡ false) rows × (filter p rows ≡ []))
    ⊎ ((skipped : List Row) × (x : Row) × (rest : List Row) × (rows ≡ skipped ++ x ∷ rest)
        × (p x ≡ true)
        × All (λ y. p y ≡ false) skipped
        × (filter p rows ≡ x ∷ filter p rest))

pub split : (p : Row → Bool) (rows : List Row) → Split p rows
split p [] = inl (tt, refl)
split p (y ∷ rows) = elim (Bool-cases (p y)) [
  | inl hit ↦ inr ([], y, rows, refl, hit, tt, ground (arith, hit))
  | inr miss ↦ elim (split p rows) [
    | inl (out, nothing) ↦ inl ((miss, out), ground (arith, miss, nothing))
    | inr (skipped, x, rest, same, hit, out, kept) ↦
        inr
          (y ∷ skipped, x, rest, ground (arith, same), hit, (miss, out), ground (arith, miss, kept))
  ]
]

module _ (types : List AttributeType) where
  pub All-member :
      (P : Row → Type 0) (skipped : List Row) (x : Row) (rest : List Row)
      → All P (skipped ++ x ∷ rest)
      → P x
  All-member P [] x rest h = h.0
  All-member P (y ∷ skipped) x rest h = All-member P skipped x rest h.1

  pub IsSorted-split :
      (skipped : List Row) (x : Row) (rest : List Row)
      → IsSorted types (skipped ++ x ∷ rest)
      → All (λ y. IsNotAfter types y x) skipped × IsSorted types rest
  IsSorted-split [] x rest h = (tt, h.1)
  IsSorted-split (y ∷ skipped) x rest (first, sorted) =
      let (before, after) = IsSorted-split skipped x rest sorted in
      ((All-member (IsNotAfter types y) skipped x rest first, before), after)

  pub All-both :
      (P Q : Row → Type 0) (rows : List Row) → All P rows → All Q rows → All (λ y. P y × Q y) rows
  All-both P Q [] h k = tt
  All-both P Q (y ∷ rows) h k = ((h.0, k.0), All-both P Q rows h.1 k.1)

  pub All-outside :
      (max : Key) (rows : List Row)
      → All (λ y. within (get_key types y.key) max ≡ false) rows
      → All (λ y. ¬ WithinBound (get_key types y.key) max) rows
  All-outside max [] h = tt
  All-outside max (y ∷ rows) h =
      (within-not_WithinBound (get_key types y.key) max h.0, All-outside max rows h.1)

  -- From the first row on that is not below a key, none is.
  not_below-after :
      (x y : Row) (k : Dbt)
      → IsNotAfter types x y
      → below types x.key k ≡ false
      → below types y.key k ≡ false
  unfolding compare_dbts
  not_below-after x y k sorted high =
      let hx = get_key-HasTypes types x.key in
      let hy = get_key-HasTypes types y.key in
      let hk = get_key-HasTypes types k in
      ground (
        arith,
        keycmp-lex types _ _ hx hy,
        keycmp-lex types _ _ hx hk,
        keycmp-lex types _ _ hy hk,
        lex-Chains types _ _ _ hx hy hk,
      )

  All-not-below :
      (x : Row) (rows : List Row) (k : Dbt)
      → All (IsNotAfter types x) rows
      → below types x.key k ≡ false
      → All (λ y. not (below types y.key k) ≡ true) rows
  All-not-below x [] k sorted high = tt
  All-not-below x (y ∷ rows) k (first, sorted) high =
      (ground (arith, not_below-after x y k first high), All-not-below x rows k sorted high)

  -- Sorted rows are those below the key, and behind them those that are not.
  pub split_below :
      (k : Dbt) (rows : List Row)
      → IsSorted types rows
      → (lower : List Row) × (ahead : List Row) × (rows ≡ lower ++ ahead)
        × All (λ x. not (below types x.key k) ≡ false) lower
        × All (λ x. not (below types x.key k) ≡ true) ahead
        × IsSorted types ahead
  split_below k [] sorted = ([], [], refl, tt, tt, tt)
  split_below k (x ∷ rows) (first, sorted) = elim (Bool-cases (below types x.key k)) [
    | inl low ↦
        let (lower, ahead, same, lows, highs, rest) = split_below k rows sorted in
        (x ∷ lower, ahead, ground (arith, same), (ground (arith, low), lows), highs, rest)
    | inr high ↦ (
      [],
      x ∷ rows,
      refl,
      tt,
      (ground (arith, high), All-not-below x rows k first high),
      (first, sorted),
    )
  ]

-- The rows from the encoded minimum on, in the order of keys, with no attribute above the maximum.
abbrev pub selected : List AttributeType → Dbt → Key → Row → Bool
selected types min max x = not (below types x.key min) && within (get_key types x.key) max

pub filter-selected :
    (types : List AttributeType) (min : Dbt) (max : Key) (lower ahead : List Row)
    → All (λ x. not (below types x.key min) ≡ false) lower
    → All (λ x. not (below types x.key min) ≡ true) ahead
    → filter (selected types min max) (lower ++ ahead)
      ≡ filter (λ x. within (get_key types x.key) max) ahead
filter-selected types min max [] [] low high = refl
filter-selected types min max [] (x ∷ ahead) low high =
    ground (arith, high.0, filter-selected types min max [] ahead low high.1)
filter-selected types min max (x ∷ lower) ahead low high =
    ground (arith, low.0, filter-selected types min max lower ahead low.1 high)
