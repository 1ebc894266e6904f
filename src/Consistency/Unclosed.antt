-- ===== src/Consistency/Unclosed.antt =====
-- DeleteIndex on an index with an open handle, wherever the handle stands among the registered ones
-- (example/Index.cc and example/BDBImpl.cc).
use oxford_sigmod.Base.{ℕ, false, some, ◌≡◌, ◌⊎◌}
use oxford_sigmod.Base.Sets.{member}
use oxford_sigmod.Bdb.{Bdb, Exception}
use oxford_sigmod.Structure.{IndexStructure}
use oxford_sigmod.World.{World, Outcome, threw, stuck}

module _ {B : Bdb} where
  -- The call threw or is stuck.
  abbrev Fails : {A : Type 0} → Outcome A × World B → Type 0
  Fails r =
      ((x : Exception) × (w' : World B) × (r ≡ (threw x, w')))
      ⊎ ((w' : World B) × (r ≡ (stuck, w')))

  -- After `Close` on an open handle has returned, its structure does not list the handle.
  abbrev IsUnlisted : ℕ → ℕ → World B → Type 0
  IsUnlisted g p w = (s : IndexStructure) × (w.structures p ≡ some s) × (member g s.handles ≡ false)
