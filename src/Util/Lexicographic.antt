-- ===== src/Util/Lexicographic.antt =====
-- `keycmp` orders the keys of one index: lexicographically, by the attribute order (example/Util.cc).
use oxford_sigmod.Base.{Ordering, ◌≡◌, refl, some, none, List, [], ◌∷◌, arith, flip, ap, ◌∙◌}
use oxford_sigmod.Types.{AttributeType, Key}
use oxford_sigmod.Util.{attcmp, keycmp, same_count, keycmp_loop}
use oxford_sigmod.Util.Order.{Chains, attcmp-flip, attcmp-Chains}

-- A key of an index with these attribute types: as many attributes, none NULL, each of its type.
abbrev pub HasTypes : List AttributeType → Key → Type 0
HasTypes [] [] = Unit {0}
HasTypes [] (_ ∷ _) = ⊥
HasTypes (t ∷ ts) [] = ⊥
HasTypes (t ∷ ts) (none ∷ k) = ⊥
HasTypes (t ∷ ts) (some a ∷ k) = (a.type ≡ t) × HasTypes ts k

abbrev pub then : Ordering → Ordering → Ordering
then Ordering.lt r = Ordering.lt
then Ordering.gt r = Ordering.gt
then Ordering.eq r = r

-- The lexicographic order, as a total function.
abbrev pub lex : Key → Key → Ordering
lex [] k = Ordering.eq
lex (a ∷ j) [] = Ordering.eq
lex (none ∷ j) (b ∷ k) = lex j k
lex (some a ∷ j) (none ∷ k) = lex j k
lex (some a ∷ j) (some b ∷ k) = then (attcmp a b) (lex j k)

pub HasTypes-same_count :
    (ts : List AttributeType) (j k : Key) → HasTypes ts j → HasTypes ts k → same_count j k ≡ some tt
HasTypes-same_count [] [] [] p q = refl
HasTypes-same_count [] [] (x ∷ k) p q = absurd q
HasTypes-same_count [] (x ∷ j) k p q = absurd p
HasTypes-same_count (t ∷ ts) [] k p q = absurd p
HasTypes-same_count (t ∷ ts) (none ∷ j) k p q = absurd p
HasTypes-same_count (t ∷ ts) (some a ∷ j) [] p q = absurd q
HasTypes-same_count (t ∷ ts) (some a ∷ j) (none ∷ k) p q = absurd q
HasTypes-same_count (t ∷ ts) (some a ∷ j) (some b ∷ k) p q = HasTypes-same_count ts j k p.1 q.1

keycmp_loop-lex :
    (ts : List AttributeType) (j k : Key)
    → HasTypes ts j
    → HasTypes ts k
    → keycmp_loop j k ≡ some (lex j k)
unfolding keycmp_loop
keycmp_loop-lex [] [] [] p q = refl
keycmp_loop-lex [] [] (x ∷ k) p q = absurd q
keycmp_loop-lex [] (x ∷ j) k p q = absurd p
keycmp_loop-lex (t ∷ ts) [] k p q = absurd p
keycmp_loop-lex (t ∷ ts) (none ∷ j) k p q = absurd p
keycmp_loop-lex (t ∷ ts) (some a ∷ j) [] p q = absurd q
keycmp_loop-lex (t ∷ ts) (some a ∷ j) (none ∷ k) p q = absurd q
keycmp_loop-lex (t ∷ ts) (some a ∷ j) (some b ∷ k) p q =
    ground (arith, keycmp_loop-lex ts j k p.1 q.1)

-- On keys of one index no assertion fails, and the result is that of the lexicographic order.
pub keycmp-lex :
    (ts : List AttributeType) (j k : Key)
    → HasTypes ts j
    → HasTypes ts k
    → keycmp j k ≡ some (lex j k)
unfolding keycmp
keycmp-lex ts j k p q = rw (HasTypes-same_count ts j k p q, keycmp) (keycmp_loop-lex ts j k p q)

pub lex-flip :
    (ts : List AttributeType) (j k : Key) → HasTypes ts j → HasTypes ts k → lex k j ≡ flip (lex j k)
lex-flip [] [] [] p q = refl
lex-flip [] [] (x ∷ k) p q = absurd q
lex-flip [] (x ∷ j) k p q = absurd p
lex-flip (t ∷ ts) [] k p q = absurd p
lex-flip (t ∷ ts) (none ∷ j) k p q = absurd p
lex-flip (t ∷ ts) (some a ∷ j) [] p q = absurd q
lex-flip (t ∷ ts) (some a ∷ j) (none ∷ k) p q = absurd q
lex-flip (t ∷ ts) (some a ∷ j) (some b ∷ k) p q =
    ground (arith, lex-flip ts j k p.1 q.1, attcmp-flip t a b p.0 q.0)

then-Chains :
    (o p r o' p' r' : Ordering)
    → Chains o p r
    → Chains o' p' r'
    → Chains (then o o') (then p p') (then r r')
then-Chains o p r o' p' r' h h' = ground arith

pub lex-Chains :
    (ts : List AttributeType) (i j k : Key)
    → HasTypes ts i
    → HasTypes ts j
    → HasTypes ts k
    → Chains (lex i j) (lex j k) (lex i k)
lex-Chains [] [] j k p q r = rw (empty j k q r)
  where
    empty : (j k : Key) → HasTypes [] j → HasTypes [] k → lex j k ≡ Ordering.eq
    empty [] [] q r = refl
    empty [] (x ∷ k) q r = absurd r
    empty (x ∷ j) k q r = absurd q
lex-Chains [] (x ∷ i) j k p q r = absurd p
lex-Chains (t ∷ ts) [] j k p q r = absurd p
lex-Chains (t ∷ ts) (none ∷ i) j k p q r = absurd p
lex-Chains (t ∷ ts) (some a ∷ i) [] k p q r = absurd q
lex-Chains (t ∷ ts) (some a ∷ i) (none ∷ j) k p q r = absurd q
lex-Chains (t ∷ ts) (some a ∷ i) (some b ∷ j) [] p q r = absurd r
lex-Chains (t ∷ ts) (some a ∷ i) (some b ∷ j) (none ∷ k) p q r = absurd r
lex-Chains (t ∷ ts) (some a ∷ i) (some b ∷ j) (some c ∷ k) p q r =
    then-Chains _ _ _ _ _ _ (attcmp-Chains t a b c p.0 q.0) (lex-Chains ts i j k p.1 q.1 r.1)

-- For keys with no NULL and the types of one index, `keycmp` never fails an assertion, swapping
-- its arguments reverses the result, and the results for `i j` and `j k` compose to that for `i
-- k`: two that agree give the same, and an equality gives the other.
pub keycmp-order :
    (ts : List AttributeType) (i j k : Key)
    → HasTypes ts i
    → HasTypes ts j
    → HasTypes ts k
    → (o : Ordering) × (p : Ordering) × (r : Ordering) × (keycmp i j ≡ some o)
      × (keycmp j k ≡ some p)
      × (keycmp i k ≡ some r)
      × (keycmp j i ≡ some (flip o))
      × Chains o p r
keycmp-order ts i j k hi hj hk = (
  lex i j,
  lex j k,
  lex i k,
  keycmp-lex ts i j hi hj,
  keycmp-lex ts j k hj hk,
  keycmp-lex ts i k hi hk,
  keycmp-lex ts j i hj hi ∙ ap some (lex-flip ts i j hi hj),
  lex-Chains ts i j k hi hj hk,
)
