-- ===== src/Consistency/Handling.antt =====
-- Calls on the handles of a reachable world (example/BDBImpl.cc and example/Index.cc): what is on the
-- heap for an open handle, and why a call on a record returns.
use oxford_sigmod.Base.{
  ℕ, Bool, true, false, Option, none, some, ◌≡◌, refl, arith, Bool-cases, inl, inr, ◌==◌, length,
}
use oxford_sigmod.Types.{ErrorCode, k_error_unknown_index, k_error_incompatible_key, Record}
use oxford_sigmod.Bdb.{Bdb, Exception}
use oxford_sigmod.Structure.{IndexStructure}
use oxford_sigmod.World
use oxford_sigmod.World.{World, Index, M, returned, update, catching}
use oxford_sigmod.Index.{compatible, compatible_record}
use oxford_sigmod.Api.{with_open, with_record}
use oxford_sigmod.Manager.Laws.{IsThere}
use oxford_sigmod.Consistency.Endings.{Ends, Returns, Returns-catching}
use oxford_sigmod.Consistency.Runs.{Reachable, Reachable-Consistent}

module _ {B : Bdb} where
  -- What is on the heap for an open handle.
  pub record Serves (w : World B) (i : Index) : Type 0 where
    pub structure_pointer : ℕ
    pub structure : IndexStructure
    pub database : ℕ
    pub at_structure : i.structure ≡ some structure_pointer
    pub found : w.structures structure_pointer ≡ some structure
    pub at_db : i.db ≡ some database

  pub Serves-open :
      {w : World B}
      → Reachable w
      → (h : ℕ) (i : Index) → w.objects h ≡ some i
      → i.closed ≡ false
      → Serves w i
  Serves-open reached h i at is_open =
      let (p, s, at_structure, found, _, _, (db, at_db)) =
        (Reachable-Consistent reached).listed h i at is_open in
      record {
        structure_pointer = p;
        structure = s;
        database = db;
        at_structure = at_structure;
        found = found;
        at_db = at_db;
      }

  module _ (w : World B) (h : ℕ) (i : Index) (at : w.objects h ≡ some i) (v : Serves w i)
      (is_open : i.closed ≡ false) where
    compatible_record-runs :
        (r : Option Record)
        → (fits : Bool) × (compatible_record h r w ≡ (returned fits, w))
          × (fits ≡ true → (x : Record) × (r ≡ some x) × (length x.key ≡ length v.structure.type))
    unfolding compatible_record compatible
    compatible_record-runs none = (false, refl, λ e. cc e)
    compatible_record-runs (some x) = (
      length x.key == length v.structure.type,
      ground (arith, at, v.at_structure, v.found, is_open),
      λ same. (x, refl, ground (arith, same)),
    )

    -- A call on a record, whose exceptions become codes.
    with_record-Returns :
        (m : ℕ → Record → M B ErrorCode) (code_of : Exception → ErrorCode) (r : Option Record)
        → ((x : Record)
            → r ≡ some x
            → length x.key ≡ length v.structure.type
            → Ends (λ a w'. IsThere {B = B} w' v.structure_pointer) (m h x w))
        → Returns
            (with_open
              (some h)
              λ g. with_record r g λ x. catching (m g x) λ e. World.pure (code_of e))
            w
    unfolding with_open with_record
    with_record-Returns m code_of r ends =
        let (fits, compared, given) = compatible_record-runs r in
        elim (Bool-cases fits) [
          | inr differs ↦
              (k_error_incompatible_key, w, ground (arith, at, is_open, compared, differs))
          | inl same ↦
              let (x, given_x, counts) = given same in
              let (code, w', ran) =
                Returns-catching (λ a w'. IsThere {B = B} w' v.structure_pointer) (m h x)
                  (λ e. World.pure (code_of e)) w (ends x given_x counts)
                  (λ e w'. (code_of e, w', refl)) in
              (code, w', ground (arith, at, is_open, compared, same, given_x, ran))
        ]

  with_open-closed :
      (w : World B) (h : ℕ) (i : Index) (k : ℕ → M B ErrorCode)
      → w.objects h ≡ some i
      → i.closed ≡ true
      → Returns (with_open (some h) k) w
  unfolding with_open
  with_open-closed w h i k at closed = (k_error_unknown_index, w, ground (arith, at, closed))

  -- A call on a record returns, if it is not stuck on an open handle.
  pub with_open-Returns :
      {w : World B}
      → Reachable w
      → (h : ℕ) (i : Index) (m : ℕ → Record → M B ErrorCode) (code_of : Exception → ErrorCode)
        (r : Option Record)
      → w.objects h ≡ some i
      → ((v : Serves w i) (x : Record)
          → r ≡ some x
          → length x.key ≡ length v.structure.type
          → Ends (λ a w'. IsThere {B = B} w' v.structure_pointer) (m h x w))
      → Returns
          (with_open
            (some h)
            λ g. with_record r g λ x. catching (m g x) λ e. World.pure (code_of e))
          w
  with_open-Returns {w} reached h i m code_of r at ends = elim (Bool-cases i.closed) [
    | inl closed ↦
        with_open-closed w h i
          (λ g. with_record r g λ x. catching (m g x) λ e. World.pure (code_of e)) at closed
    | inr is_open ↦
        let v = Serves-open reached h i at is_open in
        with_record-Returns w h i at v is_open m code_of r (ends v)
  ]
