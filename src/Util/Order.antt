-- ===== src/Util/Order.antt =====
-- `attcmp` is an order on attributes of one type (example/Util.cc).
use oxford_sigmod.Base.{ℕ, Ordering, ◌≡◌, refl, List, [], ◌∷◌, arith, flip}
use oxford_sigmod.Base.Int.{ℤ}
use oxford_sigmod.Types.{Attribute, AttributeType, k_short, k_int, k_varchar}
use oxford_sigmod.Util.{strcmp, compare_ints, attcmp, short_value, int_value}

-- Two steps of one comparison compose to `r` when both are `r`, or one is `eq` and the other `r`.
abbrev pub Chains : Ordering → Ordering → Ordering → Type 0
Chains Ordering.lt Ordering.lt r = r ≡ Ordering.lt
Chains Ordering.gt Ordering.gt r = r ≡ Ordering.gt
Chains Ordering.eq p r = r ≡ p
Chains Ordering.lt Ordering.eq r = r ≡ Ordering.lt
Chains Ordering.gt Ordering.eq r = r ≡ Ordering.gt
Chains Ordering.lt Ordering.gt r = Unit {0}
Chains Ordering.gt Ordering.lt r = Unit {0}

pub compare_ints-flip : (a b : ℤ) → compare_ints b a ≡ flip (compare_ints a b)
unfolding compare_ints
compare_ints-flip a b = ground arith

compare_ints-Chains : (a b c : ℤ) → Chains (compare_ints a b) (compare_ints b c) (compare_ints a c)
unfolding compare_ints
compare_ints-Chains a b c = ground arith

pub strcmp-flip : (xs ys : List ℕ) → strcmp ys xs ≡ flip (strcmp xs ys)
unfolding strcmp
strcmp-flip [] [] = refl
strcmp-flip [] (b ∷ ys) = ground arith
strcmp-flip (a ∷ xs) [] = ground arith
strcmp-flip (a ∷ xs) (b ∷ ys) = ground (arith, strcmp-flip xs ys)

strcmp-Chains : (xs ys zs : List ℕ) → Chains (strcmp xs ys) (strcmp ys zs) (strcmp xs zs)
unfolding strcmp
strcmp-Chains [] [] [] = refl
strcmp-Chains [] [] (c ∷ zs) = ground arith
strcmp-Chains [] (b ∷ ys) [] = ground arith
strcmp-Chains (a ∷ xs) [] [] = ground arith
strcmp-Chains (a ∷ xs) [] (c ∷ zs) = ground arith
strcmp-Chains [] (b ∷ ys) (c ∷ zs) = ground arith
strcmp-Chains (a ∷ xs) (b ∷ ys) [] = ground arith
strcmp-Chains (a ∷ xs) (b ∷ ys) (c ∷ zs) = ground (arith, strcmp-Chains xs ys zs)

-- What `attcmp` computes once the type of the first attribute is known.
abbrev compare_as : AttributeType → Attribute → Attribute → Ordering
compare_as k_short a b = compare_ints (short_value a) (short_value b)
compare_as k_int a b = compare_ints (int_value a) (int_value b)
compare_as k_varchar a b = strcmp a.bytes b.bytes

attcmp-compare_as :
    (t : AttributeType) (a b : Attribute) → a.type ≡ t → attcmp a b ≡ compare_as t a b
unfolding attcmp
attcmp-compare_as k_short a b e = rw (e, attcmp)
attcmp-compare_as k_int a b e = rw (e, attcmp)
attcmp-compare_as k_varchar a b e = rw (e, attcmp)

compare_as-flip : (t : AttributeType) (a b : Attribute) → compare_as t b a ≡ flip (compare_as t a b)
compare_as-flip k_short a b = compare_ints-flip (short_value a) (short_value b)
compare_as-flip k_int a b = compare_ints-flip (int_value a) (int_value b)
compare_as-flip k_varchar a b = strcmp-flip a.bytes b.bytes

compare_as-Chains :
    (t : AttributeType) (a b c : Attribute)
    → Chains (compare_as t a b) (compare_as t b c) (compare_as t a c)
compare_as-Chains k_short a b c =
    compare_ints-Chains (short_value a) (short_value b) (short_value c)
compare_as-Chains k_int a b c = compare_ints-Chains (int_value a) (int_value b) (int_value c)
compare_as-Chains k_varchar a b c = strcmp-Chains a.bytes b.bytes c.bytes

pub attcmp-flip :
    (t : AttributeType) (a b : Attribute) → a.type ≡ t → b.type ≡ t → attcmp b a ≡ flip (attcmp a b)
attcmp-flip t a b p q =
    rw (attcmp-compare_as t a b p, attcmp-compare_as t b a q) (compare_as-flip t a b)

pub attcmp-Chains :
    (t : AttributeType) (a b c : Attribute)
    → a.type ≡ t
    → b.type ≡ t
    → Chains (attcmp a b) (attcmp b c) (attcmp a c)
attcmp-Chains t a b c p q =
    rw (attcmp-compare_as t a b p, attcmp-compare_as t b c q, attcmp-compare_as t a c p)
      (compare_as-Chains t a b c)
