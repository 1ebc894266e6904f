-- ===== src/Consistency/Handles.antt =====
-- What closing handles does to the rest of the heap (example/Index.cc).
use oxford_sigmod.Base.{
  ℕ, true, Option, some, List, String, ◌≡◌, refl, ◌∙◌, arith, Bool-cases, inl, inr, ◌==◌,
}
use oxford_sigmod.Base.Sets.{member}
use oxford_sigmod.Bdb.{Bdb}
use oxford_sigmod.Structure.{IndexStructure}
use oxford_sigmod.World.{World, Index, update}
use oxford_sigmod.Consistency.Invariant.{Consistent}
use oxford_sigmod.Consistency.Heap.{IsConsistent-set_object}

abbrev Structures : Type 0
Structures = ℕ → Option IndexStructure

-- No handle is opened or registered, and the map stays.
pub record Shrink (structures structures' : Structures) (indices indices' : List (String × ℕ))
    (objects objects' : ℕ → Option Index) : Type 0 where
  pub still_closed :
      (h : ℕ)
      → ((i : Index) → objects h ≡ some i → i.closed ≡ true)
      → (i : Index) → objects' h ≡ some i
      → i.closed ≡ true
  pub fewer_handles :
      (p : ℕ) (s' : IndexStructure)
      → structures' p ≡ some s'
      → (s : IndexStructure) × (structures p ≡ some s)
        × ((h : ℕ) → member h s'.handles ≡ true → member h s.handles ≡ true)
  pub same_names : indices' ≡ indices

module _ {B : Bdb} where
  -- The handle is closed or gone.
  abbrev pub NotOpen : ℕ → World B → Type 0
  NotOpen h w = (i : Index) → w.objects h ≡ some i → i.closed ≡ true

  abbrev pub Shrinks : World B → World B → Type 0
  Shrinks w w' = Shrink w.structures w'.structures w.indices w'.indices w.objects w'.objects

  pub Shrinks-refl : (w : World B) → Shrinks w w
  Shrinks-refl w = record {
    still_closed = λ h n. n;
    fewer_handles = λ p s at. (s, at, λ h m. m);
    same_names = refl;
  }

  pub Shrinks-trans : (u v w : World B) → Shrinks u v → Shrinks v w → Shrinks u w
  Shrinks-trans u v w first second = record {
    still_closed = λ h n. second.still_closed h (first.still_closed h n);
    fewer_handles = λ p s at.
        let (t, at_t, sub) = second.fewer_handles p s at in
        let (r, at_r, sub') = first.fewer_handles p t at_t in (r, at_r, λ h m. sub' h (sub h m));
    same_names = second.same_names ∙ first.same_names;
  }

  pub Shrinks-set_closed :
      (w : World B) (h : ℕ) (i : Index)
      → i.closed ≡ true
      → Shrinks w (record w { objects = update w.objects h (some i) })
  Shrinks-set_closed w h i closed = record {
    still_closed = λ g n j at. elim (Bool-cases (h == g)) [
      | inl same ↦ ground (arith, same, at, closed)
      | inr other ↦ n j (ground (arith, other, at))
    ];
    fewer_handles = λ p s at. (s, at, λ h m. m);
    same_names = refl;
  }

  pub closed_now :
      (w : World B) (h : ℕ) (i : Index)
      → i.closed ≡ true
      → NotOpen h (record w { objects = update w.objects h (some i) })
  closed_now w h i closed j at = ground (arith, closed, at)

  pub Consistent-set_closed :
      (w : World B) (h : ℕ) (i : Index)
      → Consistent w
      → i.closed ≡ true
      → Consistent (record w { objects = update w.objects h (some i) })
  Consistent-set_closed w h i c closed =
      IsConsistent-set_object c h (some i)
        λ j e open_handle. absurd (ground (arith, e, closed, open_handle))
