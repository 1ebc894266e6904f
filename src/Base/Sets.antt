-- ===== src/Base/Sets.antt =====
-- `std::set` of pointers, as a list of numbers with no repetition.
use Prim.Native.Nat.{ℕ}
use mathlib.Core.Path.{◌≡◌, refl}
use mathlib.Core.Bool.{Bool, true, false}
use mathlib.Core.List.{List, [], ◌∷◌}
use native.Mathlib.Omega.{arith}
use oxford_sigmod.Base.Tests.{◌==◌, if◌then◌else◌}

abbrev pub member : ℕ → List ℕ → Bool
member a [] = false
member a (x ∷ xs) = if x == a then true else member a xs

unfoldable pub insert : ℕ → List ℕ → List ℕ
insert a [] = a ∷ []
insert a (x ∷ xs) = if x == a then x ∷ xs else x ∷ insert a xs

unfoldable pub erase : ℕ → List ℕ → List ℕ
erase a [] = []
erase a (x ∷ xs) = if x == a then erase a xs else x ∷ erase a xs

pub member-insert :
    (b a : ℕ) (xs : List ℕ) → member b (insert a xs) ≡ (if a == b then true else member b xs)
unfolding insert
member-insert b a [] = refl
member-insert b a (x ∷ xs) = ground (arith, member-insert b a xs)

pub member-erase :
    (b a : ℕ) (xs : List ℕ) → member b (erase a xs) ≡ (if a == b then false else member b xs)
unfolding erase
member-erase b a [] = ground arith
member-erase b a (x ∷ xs) = ground (arith, member-erase b a xs)
