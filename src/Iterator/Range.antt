-- ===== src/Iterator/Range.antt =====
-- `Iterator::Next` finds the next record in range, because the rows are sorted by the first
-- attribute first (example/Iterator.cc).
use oxford_sigmod.Base.{
  zero, suc, false, none, some, List, [], ◌∷◌, ◌≡◌, ◌≢◌, refl, arith, length, All, is_gt, Ordering,
  drop,
}
use oxford_sigmod.Types.{Key, AttributeType}
use oxford_sigmod.Util.{same_count, Bounds, inside, exceeds}
use oxford_sigmod.Util.Order.{attcmp-Chains}
use oxford_sigmod.Util.Lexicographic.{HasTypes, lex, keycmp-lex}
use oxford_sigmod.Util.Ranges.{
  WithinBound, FirstAbove, Describes, check_bounds-Describes, FirstAbove-not_within,
}
use oxford_sigmod.Bdb.{Dbt, Row}
use oxford_sigmod.Structure.{get_key, attribute_size, compare_dbts}
use oxford_sigmod.Structure.Encoding.{get_key-IsExact, IsExact-HasTypes}
use oxford_sigmod.Iterator.Loop.{bounds_of, IsSkipped, IsOutside}

-- The row's attributes are all at most those of the bound.
abbrev pub InRange : List AttributeType → Key → Row → Type 0
InRange types max row = WithinBound (get_key types row.key) max

pub get_key-HasTypes :
    (types : List AttributeType) (bytes : Dbt) → HasTypes types (get_key types bytes)
get_key-HasTypes types bytes = IsExact-HasTypes types _ (get_key-IsExact types bytes)

get_key-same_count :
    (types : List AttributeType) (max : Key) (bytes : Dbt)
    → length max ≡ length types
    → same_count (get_key types bytes) max ≡ some tt
unfolding get_key
get_key-same_count [] [] bytes e = refl
get_key-same_count [] (x ∷ max) bytes e = absurd (omega arith)
get_key-same_count (t ∷ types) [] bytes e = absurd (omega arith)
get_key-same_count (t ∷ types) (x ∷ max) bytes e =
    get_key-same_count types max (drop (attribute_size t) bytes) (omega arith)

-- A key that is not after another cannot exceed a bound in its first attribute if the other is
-- within the bound.
first_attribute :
    (types : List AttributeType) (j k max : Key)
    → HasTypes types j
    → HasTypes types k
    → is_gt (lex j k) ≡ false
    → WithinBound k max
    → ¬ FirstAbove 0 j max
first_attribute [] [] k max hj hk le fits above = above
first_attribute [] (x ∷ j) k max hj hk le fits above = hj
first_attribute (t ∷ types) [] k max hj hk le fits above = hj
first_attribute (t ∷ types) (none ∷ j) k max hj hk le fits above = hj
first_attribute (t ∷ types) (some a ∷ j) [] max hj hk le fits above = hk
first_attribute (t ∷ types) (some a ∷ j) (none ∷ k) max hj hk le fits above = hk
first_attribute (t ∷ types) (some a ∷ j) (some b ∷ k) [] hj hk le fits above = above
first_attribute (t ∷ types) (some a ∷ j) (some b ∷ k) (none ∷ max) hj hk le fits above =
    ground arith
first_attribute (t ∷ types) (some a ∷ j) (some b ∷ k) (some m ∷ max) hj hk le fits above =
    ground (arith, attcmp-Chains t a b m hj.0 hk.0)

module _ (types : List AttributeType) (max : Key) (counts : length max ≡ length types) where
  bounds_of-cases :
      (row : Row)
      → (r : Bounds) × (bounds_of types max row ≡ some r)
        × Describes 0 (get_key types row.key) max r
  bounds_of-cases row =
      check_bounds-Describes (get_key types row.key) max
        (get_key-same_count types max row.key counts)

  pub bounds_of-inside : (row : Row) → InRange types max row → bounds_of types max row ≡ some inside
  bounds_of-inside row fits = let (r, e, d) = bounds_of-cases row in go r e d
    where
      go :
          (r : Bounds)
          → bounds_of types max row ≡ some r
          → Describes 0 (get_key types row.key) max r
          → bounds_of types max row ≡ some inside
      go inside e d = e
      go (exceeds n) e (i, _, above) = absurd (FirstAbove-not_within i _ max above fits)

  pub IsOut_of_range : (row : Row) → ¬ InRange types max row → IsOutside types max row
  IsOut_of_range row out = let (r, e, d) = bounds_of-cases row in go r e d
    where
      go :
          (r : Bounds)
          → bounds_of types max row ≡ some r
          → Describes 0 (get_key types row.key) max r
          → IsOutside types max row
      go inside e d = absurd (out d)
      go (exceeds n) e d = (n, e)

  not_after :
      (row later : Row)
      → compare_dbts types row.key later.key ≢ some Ordering.gt
      → is_gt (lex (get_key types row.key) (get_key types later.key)) ≡ false
  unfolding compare_dbts
  not_after row later sorted = ground (
    arith,
    keycmp-lex types _ _ (get_key-HasTypes types row.key) (get_key-HasTypes types later.key),
  )

  pub IsSkipped-of_range :
      (row later : Row)
      → ¬ InRange types max row
      → compare_dbts types row.key later.key ≢ some Ordering.gt
      → InRange types max later
      → IsSkipped types max row
  IsSkipped-of_range row later out sorted fits = let (r, e, d) = bounds_of-cases row in go r e d
    where
      go :
          (r : Bounds)
          → bounds_of types max row ≡ some r
          → Describes 0 (get_key types row.key) max r
          → IsSkipped types max row
      go inside e d = absurd (out d)
      go (exceeds zero) e (zero, _, above) = absurd (
          first_attribute types _ _ max (get_key-HasTypes types row.key)
            (get_key-HasTypes types later.key) (not_after row later sorted) fits above)
      go (exceeds zero) e (suc i, m, above) = absurd (omega arith)
      go (exceeds (suc n)) e d = (n, e)

  pub All-out :
      (rows : List Row) → All (λ s. ¬ InRange types max s) rows → All (IsOutside types max) rows
  All-out [] h = tt
  All-out (s ∷ rows) h = (IsOut_of_range s h.0, All-out rows h.1)

  pub All-IsSkipped :
      (skipped : List Row) (row : Row)
      → All
          (λ s. (¬ InRange types max s) × (compare_dbts types s.key row.key ≢ some Ordering.gt))
          skipped
      → InRange types max row
      → All (IsSkipped types max) skipped
  All-IsSkipped [] row h fits = tt
  All-IsSkipped (s ∷ skipped) row h fits =
      (IsSkipped-of_range s row h.0.0 h.0.1 fits, All-IsSkipped skipped row h.1 fits)
