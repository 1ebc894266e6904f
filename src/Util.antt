-- ===== src/Util.antt =====
-- example/Util.cc: comparison of attributes and keys, the range test of an iterator, and copies. A
-- C comparison is modelled by its sign, an `Ordering`; an assertion that fails is `none`.
pub mod Order
pub mod Lexicographic
pub mod Ranges
use oxford_sigmod.Base.{
  ℕ, suc, ◌+◌, ◌*◌, Ordering, Option, none, some, List, [], ◌∷◌, take, ltb, ◌==◌, if◌then◌else◌,
  is_gt, map,
}
use oxford_sigmod.Base.Int.{ℤ, ltb_ℤ, signed32, signed64}
use oxford_sigmod.Types.{AttributeType, Attribute, Key, Record, k_short, k_int, k_varchar}

-- The number that bytes stand for, the least significant first.
unfoldable pub le_value : List ℕ → ℕ
le_value [] = 0
le_value (b ∷ ys) = b + 256 * le_value ys

abbrev pub short_value : Attribute → ℤ
short_value a = signed32 (le_value (take 4 a.bytes))

abbrev pub int_value : Attribute → ℤ
int_value a = signed64 (le_value (take 8 a.bytes))

-- `strcmp` of the C library, by unsigned bytes up to the first NUL; a byte that was never written
-- counts as NUL.
unfoldable pub strcmp : List ℕ → List ℕ → Ordering
strcmp [] [] = Ordering.eq
strcmp [] (b ∷ ys) = if b == 0 then Ordering.eq else Ordering.lt
strcmp (a ∷ xs) [] = if a == 0 then Ordering.eq else Ordering.gt
strcmp (a ∷ xs) (b ∷ ys) =
    let rest = strcmp xs ys in
    if ltb a b
    then Ordering.lt
    else if ltb b a
    then Ordering.gt
    else if a == 0
    then Ordering.eq
    else rest

-- The two `if`s of the integer cases.
unfoldable pub compare_ints : ℤ → ℤ → Ordering
compare_ints a b = if ltb_ℤ a b then Ordering.lt else if ltb_ℤ b a then Ordering.gt else Ordering.eq

-- The `switch` looks at the type of the first attribute only.
unfoldable pub attcmp : Attribute → Attribute → Ordering
attcmp a b = elim a.type [
  | k_short ↦ compare_ints (short_value a) (short_value b)
  | k_int ↦ compare_ints (int_value a) (int_value b)
  | k_varchar ↦ strcmp a.bytes b.bytes
]

-- The first attribute that differs decides; unequal counts and NULL attributes fail an assertion,
-- the count before the loop begins.
unfoldable pub keycmp_loop : Key → Key → Option Ordering
keycmp_loop [] _ = some Ordering.eq
keycmp_loop (_ ∷ _) [] = none
keycmp_loop (none ∷ _) (_ ∷ _) = none
keycmp_loop (some _ ∷ _) (none ∷ _) = none
keycmp_loop (some a ∷ xs) (some b ∷ ys) = elim (attcmp a b) [
  | Ordering.lt ↦ some Ordering.lt
  | Ordering.eq ↦ keycmp_loop xs ys
  | Ordering.gt ↦ some Ordering.gt
]

abbrev pub same_count : Key → Key → Option (Unit {0})
same_count [] [] = some tt
same_count [] (_ ∷ _) = none
same_count (_ ∷ _) [] = none
same_count (_ ∷ xs) (_ ∷ ys) = same_count xs ys

unfoldable pub keycmp : Key → Key → Option Ordering
unfolding keycmp_loop
keycmp a b = elim (same_count a b) [ none ↦ none | some _ ↦ keycmp_loop a b ]

-- The result of `CheckBounds`: true, or false with the index of the attribute that is too large.
pub data Bounds : Type 0 where
  inside : Bounds
  exceeds : ℕ → Bounds

-- A NULL attribute on either side is a wildcard.
abbrev pub attribute_exceeds : Option Attribute → Option Attribute → Ordering
attribute_exceeds (some a) (some b) = attcmp a b
attribute_exceeds none _ = Ordering.eq
attribute_exceeds (some _) none = Ordering.eq

unfoldable pub check_bounds_from : ℕ → Key → Key → Bounds
check_bounds_from i [] _ = inside
check_bounds_from i (_ ∷ _) [] = inside
check_bounds_from i (a ∷ xs) (b ∷ ys) =
    let rest = check_bounds_from (suc i) xs ys in
    if is_gt (attribute_exceeds a b) then exceeds i else rest

unfoldable pub check_bounds : Key → Key → Option Bounds
unfolding check_bounds_from
check_bounds a b = elim (same_count a b) [ none ↦ none | some _ ↦ some (check_bounds_from 0 a b) ]

-- A copy has attributes of its own with the same contents.
abbrev copy_attribute : Option Attribute → Option Attribute
copy_attribute none = none
copy_attribute (some a) = some (record { type = a.type; bytes = a.bytes })

unfoldable pub copy_key : Key → Key
copy_key b = map copy_attribute b

unfoldable pub copy_record : Record → Record
unfolding copy_key
copy_record src = record { key = copy_key src.key; payload = src.payload }
