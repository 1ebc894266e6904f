-- ===== src/Manager/Laws.antt =====
-- The map of index structures, and the end of a transaction in all of them (example/Index.cc).
use text.Mathlib.TextEquality.{eq_iff}
use text.Mathlib.Text.{◌==◌ as str_eq}
use oxford_sigmod.Base.{
  ℕ, false, Option, some, List, [], ◌∷◌, String, ◌≡◌, refl, arith, All, if◌then◌else◌, Bool-cases,
  inl, inr, ◌==◌,
}
use oxford_sigmod.Base.Sets.{member, member-erase}
use oxford_sigmod.Bdb.{Bdb}
use oxford_sigmod.Structure.{IndexStructure, end_transaction}
use oxford_sigmod.World.{World, returned, update}
use oxford_sigmod.Manager.{
  lookup, insert, end_transaction_at, end_transaction_in, close_transaction,
}

-- A name that is inserted is found with its structure, and every other name as before.
pub lookup-insert :
    {A : Type 0} (k j : String) (p : A) (m : List (String × A))
    → lookup j (insert k p m) ≡ (if str_eq k j then some p else lookup j m)
unfolding lookup insert
lookup-insert k j p [] = refl
lookup-insert k j p ((i, q) ∷ m) =
    ground (arith, eq_iff k j, eq_iff i k, eq_iff i j, lookup-insert k j p m)

-- The structure at `p` is there and does not have the transaction.
abbrev pub IsCleared : {B : Bdb} → ℕ → World B → ℕ → Type 0
IsCleared tx w p =
    (s : IndexStructure) × (w.structures p ≡ some s) × (member tx s.transactions ≡ false)

abbrev pub IsThere : {B : Bdb} → World B → ℕ → Type 0
IsThere w p = (s : IndexStructure) × (w.structures p ≡ some s)

module _ {B : Bdb} (tx : ℕ) where
  abbrev cleared_at : ℕ → World B → IndexStructure → World B
  cleared_at p w s = record w { structures = update w.structures p (some (end_transaction tx s)) }

  end_transaction_at-runs :
      (p : ℕ) (w : World B) (s : IndexStructure)
      → w.structures p ≡ some s
      → end_transaction_at p tx w ≡ (returned tt, cleared_at p w s)
  unfolding end_transaction_at
  end_transaction_at-runs p w s at = ground (arith, at)

  cleared_at_self : (p : ℕ) (w : World B) (s : IndexStructure) → IsCleared tx (cleared_at p w s) p
  unfolding end_transaction
  cleared_at_self p w s =
      (end_transaction tx s, ground arith, ground (arith, member-erase tx tx s.transactions))

  cleared_at-keeps :
      (p q : ℕ) (w : World B) (s : IndexStructure)
      → IsCleared tx w q
      → IsCleared tx (cleared_at p w s) q
  unfolding end_transaction
  cleared_at-keeps p q w s (t, at, gone) = elim (Bool-cases (p == q)) [
    | inl same ↦ (
      end_transaction tx s,
      ground (arith, same),
      ground (arith, member-erase tx tx s.transactions),
    )
    | inr other ↦ (t, ground (arith, at, other), gone)
  ]

  cleared_at-IsThere :
      (p q : ℕ) (w : World B) (s : IndexStructure) → IsThere w q → IsThere (cleared_at p w s) q
  cleared_at-IsThere p q w s (t, at) = elim (Bool-cases (p == q)) [
    | inl same ↦ (end_transaction tx s, ground (arith, same))
    | inr other ↦ (t, ground (arith, at, other))
  ]

  All-IsThere :
      (p : ℕ) (w : World B) (s : IndexStructure) (m : List (String × ℕ))
      → All (λ e. IsThere w e.1) m
      → All (λ e. IsThere (cleared_at p w s) e.1) m
  All-IsThere p w s [] h = tt
  All-IsThere p w s (e ∷ m) h = (cleared_at-IsThere p e.1 w s h.0, All-IsThere p w s m h.1)

  end_transaction_in-clears :
      (m : List (String × ℕ)) (w : World B)
      → All (λ e. IsThere w e.1) m
      → (F : ℕ → Option IndexStructure) × (end_transaction_in tx m w
          ≡ (returned tt, record w { structures = F }))
        × All (λ e. IsCleared tx (record w { structures = F }) e.1) m
        × ((q : ℕ) → IsCleared tx w q → IsCleared tx (record w { structures = F }) q)
  unfolding end_transaction_in
  end_transaction_in-clears [] w there = (w.structures, refl, tt, λ q c. c)
  end_transaction_in-clears ((n, p) ∷ m) w ((s, at), there) =
      let (F, ran, cleared, keeps) =
        end_transaction_in-clears m (cleared_at p w s) (All-IsThere p w s m there) in
      (
        F,
        ground (arith, end_transaction_at-runs p w s at, ran),
        (keeps p (cleared_at_self p w s), cleared),
        λ q c. keeps q (cleared_at-keeps p q w s c),
      )

  -- `CloseTransaction` takes the transaction out of the set of every index in the map, and changes
  -- nothing but index structures. The map's pointers have to be valid.
  pub close_transaction-clears :
      (w : World B)
      → All (λ e. IsThere w e.1) w.indices
      → (F : ℕ → Option IndexStructure) × (close_transaction tx w
          ≡ (returned tt, record w { structures = F }))
        × All (λ e. IsCleared tx (record w { structures = F }) e.1) w.indices
  unfolding close_transaction
  close_transaction-clears w there =
      let (F, ran, cleared, _) = end_transaction_in-clears w.indices w there in (F, ran, cleared)
