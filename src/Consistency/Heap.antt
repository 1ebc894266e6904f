-- ===== src/Consistency/Heap.antt =====
-- Writes to the heap and to the map, against the invariant (example/Index.cc).
use oxford_sigmod.Base.{
  ℕ, suc, ◌<◌, true, false, Option, none, some, List, [], ◌∷◌, String, ◌≡◌, ◌≢◌, ap, ◌∙◌, arith,
  All, Bool-cases, inl, inr, ◌==◌,
}
use mathlib.Core.Path.{subst}
use oxford_sigmod.Base.Sets.{member}
use oxford_sigmod.Structure.{IndexStructure}
use oxford_sigmod.World.{Index, update}
use oxford_sigmod.Manager.{lookup, insert, erase}
use oxford_sigmod.Consistency.Names.{
  All-map, All-insert, Distinct-insert, Distinct-erase, Distinct-All-erase,
}
use oxford_sigmod.Consistency.Invariant.{IsConsistent, IsLive, IsListed}

pub ==→≡ : (a b : ℕ) → (a == b) ≡ true → a ≡ b
==→≡ a b h = ground arith

ne_of_lt : (a b : ℕ) → a < b → a ≢ b
ne_of_lt a b h e = omega arith

abbrev Structures : Type 0
Structures = ℕ → Option IndexStructure

-- The structure `s'` may take the place of `s` at `p`: it is safe, and it lists the open handles.
pub record Replaces (objects : ℕ → Option Index) (p : ℕ) (s s' : IndexStructure) : Type 0 where
  pub still_safe : s'.read_only ≡ true → s'.transactions ≡ []
  pub still_listed :
      (h : ℕ) (i : Index)
      → objects h ≡ some i
      → i.closed ≡ false
      → i.structure ≡ some p
      → member h s.handles ≡ true
      → member h s'.handles ≡ true

module _ {structures : Structures} {indices : List (String × ℕ)} {objects : ℕ → Option Index}
    {next : ℕ} (c : IsConsistent structures indices objects next) where
  module _ (p : ℕ) (s s' : IndexStructure) (found : structures p ≡ some s)
      (r : Replaces objects p s s') where
    IsLive-replace :
        (q : ℕ) → IsLive structures next q → IsLive (update structures p (some s')) next q
    IsLive-replace q (t, at, below) = elim (Bool-cases (p == q)) [
      | inl same ↦ (s', ground (arith, same), below)
      | inr other ↦ (t, ground (arith, at, other), below)
    ]

    All-IsLive-replace :
        (m : List (String × ℕ))
        → All (λ e. IsLive structures next e.1) m
        → All (λ e. IsLive (update structures p (some s')) next e.1) m
    All-IsLive-replace [] h = tt
    All-IsLive-replace (e ∷ m) h = (IsLive-replace e.1 h.0, All-IsLive-replace m h.1)

    IsListed-replace :
        (h : ℕ) (i : Index)
        → objects h ≡ some i
        → i.closed ≡ false
        → IsListed structures next h i
        → IsListed (update structures p (some s')) next h i
    IsListed-replace h i at open_handle (q, t, of_handle, at_q, lists, below, based) =
        elim (Bool-cases (p == q)) [
          | inl same ↦ (
            q,
            s',
            of_handle,
            ground (arith, same),
            r.still_listed h i at open_handle (ground (arith, same, of_handle))
                (ground (arith, same, at_q, found, lists)),
            below,
            based,
          )
          | inr other ↦ (q, t, of_handle, ground (arith, at_q, other), lists, below, based)
        ]

    safe_replace :
        (q : ℕ) (t : IndexStructure)
        → update structures p (some s') q ≡ some t
        → t.read_only ≡ true
        → t.transactions ≡ []
    safe_replace q t at frozen = elim (Bool-cases (p == q)) [
      | inl same ↦ ground (arith, same, at, r.still_safe)
      | inr other ↦ c.safe q t (ground (arith, at, other)) frozen
    ]

    pub IsConsistent-replace : IsConsistent (update structures p (some s')) indices objects next
    IsConsistent-replace = record {
      named = All-IsLive-replace indices c.named;
      distinct = c.distinct;
      safe = safe_replace;
      listed =
          λ h i at open_handle. IsListed-replace h i at open_handle (c.listed h i at open_handle);
    }

  -- An object may be written that is listed, if it is an open handle.
  pub IsConsistent-set_object :
      (h : ℕ) (o : Option Index)
      → ((i : Index) → o ≡ some i → i.closed ≡ false → IsListed structures next h i)
      → IsConsistent structures indices (update objects h o) next
  IsConsistent-set_object h o lists = record {
    named = c.named;
    distinct = c.distinct;
    safe = c.safe;
    listed = λ g i at open_handle. elim (Bool-cases (h == g)) [
      | inl same ↦
          subst (λ (x : ℕ). IsListed structures next x i) (==→≡ h g same)
            (lists i (ground (arith, same, at)) open_handle)
      | inr other ↦ c.listed g i (ground (arith, at, other)) open_handle
    ];
  }

  IsLive-fresh :
      (s : IndexStructure) (q : ℕ)
      → IsLive structures next q
      → IsLive (update structures next (some s)) (suc next) q
  IsLive-fresh s q (t, at, below) = (t, ground (arith, at, below), omega arith)

  IsListed-fresh :
      (s : IndexStructure) (h : ℕ) (i : Index)
      → IsListed structures next h i
      → IsListed (update structures next (some s)) (suc next) h i
  IsListed-fresh s h i (q, t, of_handle, at_q, lists, below, based) =
      (q, t, of_handle, ground (arith, at_q, below), lists, omega arith, based)

  safe_fresh :
      (s : IndexStructure)
      → s.transactions ≡ []
      → (q : ℕ) (t : IndexStructure) → update structures next (some s) q ≡ some t
      → t.read_only ≡ true
      → t.transactions ≡ []
  safe_fresh s no_transactions q t at frozen = elim (Bool-cases (next == q)) [
    | inl same ↦ ground (arith, same, at, no_transactions)
    | inr other ↦ c.safe q t (ground (arith, at, other)) frozen
  ]

  -- A new structure may be allocated and inserted.
  pub IsConsistent-insert :
      (name : String) (s : IndexStructure)
      → s.transactions ≡ []
      → IsConsistent (update structures next (some s)) (insert name next indices) objects (suc next)
  IsConsistent-insert name s no_transactions = record {
    named =
        All-insert (IsLive (update structures next (some s)) (suc next)) name next indices
          (s, ground arith, omega arith) (All-map (λ q h. IsLive-fresh s q h) indices c.named);
    distinct =
        Distinct-insert name next indices
          (All-map (λ q (h : IsLive structures next q). ne_of_lt q next h.2) indices c.named)
          c.distinct;
    safe = safe_fresh s no_transactions;
    listed = λ h i at open_handle. IsListed-fresh s h i (c.listed h i at open_handle);
  }

  module _ (p : ℕ)
      (unused : (h : ℕ) (i : Index)
        → objects h ≡ some i
        → i.closed ≡ false
        → i.structure ≢ some p) where
    IsLive-gone :
        (q : ℕ) → q ≢ p → IsLive structures next q → IsLive (update structures p none) next q
    IsLive-gone q other (t, at, below) = (t, ground (arith, at, other), below)

    IsListed-gone :
        (h : ℕ) (i : Index)
        → objects h ≡ some i
        → i.closed ≡ false
        → IsListed structures next h i
        → IsListed (update structures p none) next h i
    IsListed-gone h i at open_handle (q, t, of_handle, at_q, lists, below, based) =
        let other : q ≢ p = λ e. unused h i at open_handle (of_handle ∙ ap some e) in
        (q, t, of_handle, ground (arith, at_q, other), lists, below, based)

    safe_gone :
        (q : ℕ) (t : IndexStructure)
        → update structures p none q ≡ some t
        → t.read_only ≡ true
        → t.transactions ≡ []
    safe_gone q t at frozen = elim (Bool-cases (p == q)) [
      | inl same ↦ absurd (ground (arith, same, at))
      | inr other ↦ c.safe q t (ground (arith, at, other)) frozen
    ]

    -- A structure may go whose handles are all closed, with its name.
    pub IsConsistent-erase :
        (name : String)
        → lookup name indices ≡ some p
        → IsConsistent (update structures p none) (erase name indices) objects next
    IsConsistent-erase name named_p = record {
      named = Distinct-All-erase IsLive-gone name indices named_p c.named c.distinct;
      distinct = Distinct-erase name indices c.distinct;
      safe = safe_gone;
      listed = λ h i at open_handle. IsListed-gone h i at open_handle (c.listed h i at open_handle);
    }
