-- ===== src/Index/Match.antt =====
-- The first record that `Update` and `Delete` change, by its key or by key and payload
-- (example/Index.cc): where the cursor stops, against the sorted rows of the index.
use oxford_sigmod.Base.{
  ℕ, Bool, true, false, ◌&&◌, ◌||◌, Option, none, some, List, [], ◌∷◌, ◌++◌, ◌≡◌, refl, arith,
  Ordering, All, is_eq, if◌then◌else◌,
}
use oxford_sigmod.Types.{Key, AttributeType, Record}
use oxford_sigmod.Util.Lexicographic.{lex-Chains, lex-flip, keycmp-lex}
use oxford_sigmod.Bdb.{Dbt, Row}
use oxford_sigmod.Bdb.Laws.{same_key, same_bytes}
use oxford_sigmod.Structure.{get_bdb_key, below, compare_dbts}
use oxford_sigmod.Structure.Encoding.{IsExact, IsExact-HasTypes, get_key-get_bdb_key}
use oxford_sigmod.Index.Modify.{ignore_payload}
use oxford_sigmod.Index.Lookup.{order_to}
use oxford_sigmod.Iterator.Range.{get_key-HasTypes}
use oxford_sigmod.Iterator.Rows.{IsNotAfter}

-- The row has the key.
abbrev pub has_key : List AttributeType → Key → Row → Bool
has_key types key x = elim (order_to types key x) [ none ↦ false | some o ↦ is_eq o ]

-- The row has the record's key, and its payload unless kIgnorePayload is set.
abbrev pub matches : List AttributeType → Record → ℕ → Row → Bool
matches types r flags x =
    has_key types r.key x && (ignore_payload flags || same_bytes x.value r.payload)

-- The rows with the rows `f x` in place of the first row `x` that passes the test, if there is one.
abbrev pub change_first : (Row → Bool) → (Row → List Row) → List Row → Option (List Row)
change_first test f [] = none
change_first test f (x ∷ rows) =
    if test x
    then some (f x ++ rows)
    else elim (change_first test f rows) [ none ↦ none | some changed ↦ some (x ∷ changed) ]

pub change_first-none :
    (test : Row → Bool) (f : Row → List Row) (rows : List Row)
    → All (λ y. test y ≡ false) rows
    → change_first test f rows ≡ none
change_first-none test f [] h = refl
change_first-none test f (x ∷ rows) h = ground (arith, h.0, change_first-none test f rows h.1)

pub change_first-some :
    (test : Row → Bool) (f : Row → List Row) (before : List Row) (x : Row) (after : List Row)
    → All (λ y. test y ≡ false) before
    → test x ≡ true
    → change_first test f (before ++ x ∷ after) ≡ some (before ++ (f x ++ after))
change_first-some test f [] x after h hit = ground (arith, hit)
change_first-some test f (y ∷ before) x after h hit =
    ground (arith, h.0, change_first-some test f before x after h.1 hit)

module _ (types : List AttributeType) (key : Key) (exact : IsExact types key) where
  abbrev dbt : Dbt
  dbt = get_bdb_key types key false

  -- A row with the key is not below the encoded key, and the encoded key is not below it.
  pub same_key-has_key : (x : Row) → same_key (below types) x.key dbt ≡ has_key types key x
  unfolding same_key compare_dbts
  same_key-has_key x =
      let hx = get_key-HasTypes types x.key in
      let hk = IsExact-HasTypes types key exact in
      ground (
        arith,
        get_key-get_bdb_key types key false exact,
        keycmp-lex types _ _ hx hk,
        keycmp-lex types _ _ hk hx,
        lex-flip types _ _ hx hk,
      )

  pub has_key-eq : (x : Row) → has_key types key x ≡ true → order_to types key x ≡ some Ordering.eq
  has_key-eq x h = ground arith

  -- In front of a row with the key, another key is lower.
  lower_lem :
      (y x : Row)
      → IsNotAfter types y x
      → has_key types key y ≡ false
      → has_key types key x ≡ true
      → order_to types key y ≡ some Ordering.lt
  unfolding compare_dbts
  lower_lem y x sorted other same =
      let hy = get_key-HasTypes types y.key in
      let hx = get_key-HasTypes types x.key in
      let hk = IsExact-HasTypes types key exact in
      ground (
        arith,
        keycmp-lex types _ _ hy hx,
        keycmp-lex types _ _ hx hk,
        keycmp-lex types _ _ hy hk,
        lex-Chains types _ _ _ hy hx hk,
      )

  pub All-lower :
      (before : List Row) (x : Row)
      → All (λ y. IsNotAfter types y x) before
      → All (λ y. has_key types key y ≡ false) before
      → has_key types key x ≡ true
      → All (λ y. order_to types key y ≡ some Ordering.lt) before
  All-lower [] x sorted others same = tt
  All-lower (y ∷ before) x sorted others same =
      (lower_lem y x sorted.0 others.0 same, All-lower before x sorted.1 others.1 same)
