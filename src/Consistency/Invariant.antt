-- ===== src/Consistency/Invariant.antt =====
-- The invariant of the heap and of the map of index structures, and what it means that a call keeps
-- it (example/Index.cc and example/BDBImpl.cc).
use oxford_sigmod.Base.{ℕ, ◌<◌, true, false, Option, some, List, [], ◌∷◌, String, ◌≡◌, ◌≢◌, All}
use oxford_sigmod.Base.Sets.{member}
use oxford_sigmod.Bdb.{Bdb}
use oxford_sigmod.Structure.{IndexStructure}
use oxford_sigmod.World.{World, Index, Outcome, returned, threw, stuck, M}

-- The structure at a pointer exists, and was allocated before the pointer `next`.
abbrev pub IsLive : (ℕ → Option IndexStructure) → ℕ → ℕ → Type 0
IsLive structures next p = (s : IndexStructure) × (structures p ≡ some s) × (p < next)

-- No two names share a structure.
abbrev pub Distinct : List (String × ℕ) → Type 0
Distinct [] = Unit {0}
Distinct (e ∷ m) = All (λ f. f.1 ≢ e.1) m × Distinct m

-- The handle has a database.
abbrev pub HasDb : Index → Type 0
HasDb i = (db : ℕ) × (i.db ≡ some db)

-- An open handle has a database, and a structure that exists and lists the handle.
abbrev pub IsListed : (ℕ → Option IndexStructure) → ℕ → ℕ → Index → Type 0
IsListed structures next h i =
    (p : ℕ) × (s : IndexStructure) × (i.structure ≡ some p)
    × (structures p ≡ some s)
    × (member h s.handles ≡ true)
    × (p < next)
    × HasDb i

pub record IsConsistent (structures : ℕ → Option IndexStructure) (indices : List (String × ℕ))
    (objects : ℕ → Option Index) (next : ℕ) : Type 0 where
  -- The names in the map have structures, each its own.
  pub named : All (λ e. IsLive structures next e.1) indices
  pub distinct : Distinct indices
  -- No transaction is registered with a read-only index.
  pub safe :
      (p : ℕ) (s : IndexStructure)
      → structures p ≡ some s
      → s.read_only ≡ true
      → s.transactions ≡ []
  pub listed :
      (h : ℕ) (i : Index) → objects h ≡ some i → i.closed ≡ false → IsListed structures next h i

module _ {B : Bdb} where
  abbrev pub Consistent : World B → Type 0
  Consistent w = IsConsistent w.structures w.indices w.objects w.next_structure

  -- However the call ended, the world is consistent; if it returned, `Q` holds too.
  abbrev pub Ensures : {A : Type 0} → (A → World B → Type 0) → Outcome A × World B → Type 0
  Ensures Q (returned a, w) = Consistent w × Q a w
  Ensures Q (threw e, w) = Consistent w
  Ensures Q (stuck, w) = Consistent w

  abbrev pub Keeps : {A : Type 0} → M B A → Type 0
  Keeps m = (w : World B) → Consistent w → Ensures (λ a w'. Unit {0}) (m w)
