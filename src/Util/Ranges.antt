-- ===== src/Util/Ranges.antt =====
-- What `CheckBounds` decides (example/Util.cc).
use oxford_sigmod.Base.{
  ℕ, suc, ◌≡◌, ◌+◌, zero, some, [], ◌∷◌, arith, is_gt, true, false, inl, inr, Bool-cases,
}
use oxford_sigmod.Types.{Key}
use oxford_sigmod.Util.{
  check_bounds, check_bounds_from, Bounds, inside, exceeds, same_count, attribute_exceeds,
}

-- Attribute by attribute: no attribute of the key is greater than that of the bound, where both are
-- there.
abbrev pub WithinBound : Key → Key → Type 0
WithinBound [] _ = Unit {0}
WithinBound (_ ∷ _) [] = Unit {0}
WithinBound (a ∷ j) (b ∷ k) = (is_gt (attribute_exceeds a b) ≡ false) × WithinBound j k

-- Attribute `i` is greater than that of the bound, and none before it is.
abbrev pub FirstAbove : ℕ → Key → Key → Type 0
FirstAbove i [] _ = ⊥
FirstAbove i (_ ∷ _) [] = ⊥
FirstAbove zero (a ∷ j) (b ∷ k) = is_gt (attribute_exceeds a b) ≡ true
FirstAbove (suc i) (a ∷ j) (b ∷ k) = (is_gt (attribute_exceeds a b) ≡ false) × FirstAbove i j k

abbrev pub Describes : ℕ → Key → Key → Bounds → Type 0
Describes n j k inside = WithinBound j k
Describes n j k (exceeds m) = (i : ℕ) × (m ≡ n + i) × FirstAbove i j k

pub check_bounds_from-Describes : (n : ℕ) (j k : Key) → Describes n j k (check_bounds_from n j k)
unfolding check_bounds_from
check_bounds_from-Describes n [] k = tt
check_bounds_from-Describes n (a ∷ j) [] = tt
check_bounds_from-Describes n (a ∷ j) (b ∷ k) = elim (Bool-cases (is_gt (attribute_exceeds a b))) [
  | inl above ↦ rw (above, check_bounds_from) (0, omega arith, above)
  | inr fits ↦
      rw (fits, check_bounds_from)
        (shift (check_bounds_from (suc n) j k) fits (check_bounds_from-Describes (suc n) j k))
]
  where
    shift :
        (r : Bounds)
        → is_gt (attribute_exceeds a b) ≡ false
        → Describes (suc n) j k r
        → Describes n (a ∷ j) (b ∷ k) r
    shift inside fits h = (fits, h)
    shift (exceeds m) fits (i, e, h) = (suc i, omega arith, (fits, h))

-- On keys of equal length `CheckBounds` always answers, and its answer is right: if it returns
-- true, no attribute of the key is greater than that of the bound (a NULL on either side passes),
-- and otherwise the index that it stores is that of the first attribute that is greater.
pub check_bounds-Describes :
    (j k : Key)
    → same_count j k ≡ some tt
    → (r : Bounds) × (check_bounds j k ≡ some r) × Describes 0 j k r
unfolding check_bounds
check_bounds-Describes j k e =
    (check_bounds_from 0 j k, rw (e, check_bounds), check_bounds_from-Describes 0 j k)

-- The two answers exclude each other.
pub FirstAbove-not_within : (i : ℕ) (j k : Key) → FirstAbove i j k → ¬ WithinBound j k
FirstAbove-not_within i [] k above fits = above
FirstAbove-not_within i (a ∷ j) [] above fits = above
FirstAbove-not_within zero (a ∷ j) (b ∷ k) above fits = ground arith
FirstAbove-not_within (suc i) (a ∷ j) (b ∷ k) above fits =
    FirstAbove-not_within i j k above.1 fits.1
