-- ===== src/Consistency/Deletion.antt =====
-- IndexManager::Remove: what is left when a structure goes (example/Index.cc).
use oxford_sigmod.Base.{ℕ, Bool, true, false, none, some, [], String, ◌≡◌, ◌≢◌, sym, ap, ◌∙◌, arith}
use mathlib.Core.Path.{subst}
use oxford_sigmod.Types.{ErrorCode, k_ok, k_error_open_transactions, k_error_unknown_index}
use oxford_sigmod.Base.Sets.{member}
use oxford_sigmod.Bdb.{Bdb}
use oxford_sigmod.Structure.{IndexStructure, make_read_only}
use oxford_sigmod.Structure.Transactions.{make_read_only-IsSafe}
use oxford_sigmod.World.{returned, World, Index, M, ◌>>◌, pure, set_structure, update}
use oxford_sigmod.Manager.{
  lookup, erase, erase_entry, find, remove_found, remove, close_handles, delete_structure,
}
use oxford_sigmod.Consistency.Invariant.{Consistent, Ensures}
use oxford_sigmod.Consistency.Rules.{Ensures-structure_at, Ensures-cond, Ensures-option}
use oxford_sigmod.Consistency.Heap.{Replaces, IsConsistent-replace, IsConsistent-erase}

pub make_read_only-handles : (s : IndexStructure) → (make_read_only s).1.handles ≡ s.handles
unfolding make_read_only
make_read_only-handles s = ground arith

module _ {B : Bdb} where
  -- A structure that lists no handle is used by no open one.
  none_uses :
      (w : World B) (p : ℕ) (s : IndexStructure)
      → w.structures p ≡ some s
      → s.handles ≡ []
      → Consistent w
      → (h : ℕ) (i : Index) → w.objects h ≡ some i
      → i.closed ≡ false
      → i.structure ≢ some p
  none_uses w p s found no_handles c h i at open_handle uses =
      let (p', s', of_handle, at', lists, _, _) = c.listed h i at open_handle in
      ground (arith, lists, at', found, of_handle, uses, no_handles)

  -- No handle is registered with the structure of the name.
  abbrev pub HasNoHandles : String → World B → Type 0
  HasNoHandles name w =
      (p : ℕ) (s : IndexStructure)
      → lookup name w.indices ≡ some p
      → w.structures p ≡ some s
      → s.handles ≡ []

  delete_then_erase :
      (name : String) (p : ℕ) (w : World B) (s : IndexStructure)
      → Consistent w
      → lookup name w.indices ≡ some p
      → w.structures p ≡ some s
      → s.handles ≡ []
      → Ensures (λ _ w'. Unit {0}) ((do delete_structure p; erase_entry name; pure k_ok) w)
  unfolding delete_structure close_handles
  delete_then_erase name p w s c named found no_handles =
      let w' : World B = record w {
        structures = update w.structures p none;
        indices = erase name w.indices;
      } in
      let ran : (do delete_structure p; erase_entry name; pure k_ok) w ≡ (returned k_ok, w') =
        ground (arith, found, no_handles) in
      subst (Ensures (λ _ v. Unit {0})) (sym ran)
        (IsConsistent-erase c p (none_uses w p s found no_handles c) name named, tt)

  abbrev after_make_read_only : String → ℕ → Bool → M B ErrorCode
  after_make_read_only name p writable_no_more = elim writable_no_more [
    | true ↦ do delete_structure p; erase_entry name; pure k_ok
    | false ↦ pure k_error_open_transactions
  ]

  Replaces-make_read_only :
      (w : World B) (p : ℕ) (s : IndexStructure)
      → w.structures p ≡ some s
      → Consistent w
      → Replaces w.objects p s (make_read_only s).1
  Replaces-make_read_only w p s found c = record {
    still_safe = make_read_only-IsSafe s (c.safe p s found);
    still_listed = λ h i at open_handle uses m. ap (member h) (make_read_only-handles s) ∙ m;
  }

  -- No condition on the result.
  abbrev IsAny : {A : Type 0} → A → World B → Type 0
  IsAny _ _ = Unit {0}

  remove_found-Ensures :
      (name : String) (p : ℕ) (w : World B)
      → Consistent w
      → lookup name w.indices ≡ some p
      → HasNoHandles name w
      → Ensures IsAny (remove_found name p w)
  unfolding remove_found
  remove_found-Ensures name p w c named unused =
      Ensures-structure_at IsAny p
        (λ s.
          set_structure p (some (make_read_only s).1)
          >> after_make_read_only name p (make_read_only s).0)
        w c
        λ s found.
          let s' : IndexStructure = (make_read_only s).1 in
          let u : World B = record w { structures = update w.structures p (some s') } in
          let cu : Consistent u =
            IsConsistent-replace c p s s' found (Replaces-make_read_only w p s found c) in
          Ensures-cond IsAny (make_read_only s).0
            (delete_structure p >> (erase_entry name >> pure k_ok)) (pure k_error_open_transactions)
            u
            (λ _.
              delete_then_erase name p u s' cu named (ground arith)
                (make_read_only-handles s ∙ unused p s named found))
            (λ _. (cu, tt))

  pub remove-Ensures :
      (name : String) (w : World B)
      → Consistent w
      → HasNoHandles name w
      → Ensures (λ _ w'. Unit {0}) (remove name w)
  unfolding remove find
  remove-Ensures name w c unused =
      Ensures-option IsAny (lookup name w.indices) (pure k_error_unknown_index) (remove_found name)
        w (λ unknown. (c, tt)) λ p named. remove_found-Ensures name p w c named unused
