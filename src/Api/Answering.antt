-- ===== src/Api/Answering.antt =====
-- GetNext always comes to an answer (example/BDBImpl.cc and example/Iterator.cc).
use oxford_sigmod.Base.{
  ℕ, suc, ◌<◌, ◌+◌, Bool, true, false, Option, none, some, List, [], ◌∷◌, ◌++◌, ◌≡◌, arith, sym, ap,
  ◌∙◌, length, length-append, All, inl, inr,
}
use mathlib.Core.Path.{subst}
use oxford_sigmod.Types.{ErrorCode, k_ok, k_error_not_found, Record, Key}
use oxford_sigmod.Bdb.{Bdb, Row}
use oxford_sigmod.Bdb.Laws.{Cursors}
use oxford_sigmod.Structure.{IndexStructure, below, get_key}
use oxford_sigmod.World.{World, Iterator, returned}
use oxford_sigmod.Iterator.Range.{InRange}
use oxford_sigmod.Iterator.Next.{Reads, Pending}
use oxford_sigmod.Iterator.Rows.{
  filter, within, within-WithinBound, IsNotAfter, IsSorted, split, IsSorted-split, All-both,
  All-outside,
}
use oxford_sigmod.Api.{Cell, get_next}
use oxford_sigmod.Api.Iteration.{record_of, get_next-finds, get_next-ends}

-- What GetNext returns for the rows in range that are left.
abbrev pub next_answer : IndexStructure → List Row → ErrorCode × Cell Record
next_answer s [] = (k_error_not_found, some none)
next_answer s (x ∷ rows) = (k_ok, some (some (record_of s x)))

-- The row is in the range of an iterator with this maximum.
abbrev pub fits : IndexStructure → Key → Row → Bool
fits s max x = within (get_key s.type x.key) max

module _ {B : Bdb} {w : World B} {it c : ℕ} {i : Iterator} {s : IndexStructure}
    (reads : Reads w it c i s) (L : Cursors B (below s.type)) (db : ℕ)
    (open_iterator : i.closed ≡ false) (going : i.end ≡ false) (old : Option Record)
    (fuel : ℕ) where
  -- The call returns what the rows in range demand.
  abbrev Comes : List Row → Type 0
  Comes chosen =
      (w' : World B) × (get_next fuel (some it) (some old) w
        ≡ (returned (next_answer s chosen), w'))

  finds_lem :
      (skipped : List Row) (x : Row) (rest : List Row)
      → length skipped < fuel
      → Pending reads L db (skipped ++ x ∷ rest)
      → IsSorted s.type (skipped ++ x ∷ rest)
      → fits s i.max_key x ≡ true
      → All (λ y. fits s i.max_key y ≡ false) skipped
      → Comes (x ∷ filter (fits s i.max_key) rest)
  finds_lem skipped x rest enough pending sorted hit out =
      let (w', z, ran, _, _) =
        get_next-finds reads L db open_iterator old fuel skipped x rest going enough pending
          (within-WithinBound (get_key s.type x.key) i.max_key hit)
          (All-both s.type (λ y. ¬ InRange s.type i.max_key y) (λ y. IsNotAfter s.type y x) skipped
            (All-outside s.type i.max_key skipped out)
            (IsSorted-split s.type skipped x rest sorted).0) in
      (w', ran)

  -- GetNext on an iterator that is open and has not ended always returns: kOk with the record of
  -- the first row behind its cursor that has no attribute above the maximum key, or kErrorNotFound
  -- with NULL if there is none. The rows behind the cursor are sorted, the fuel exceeds their
  -- number, the iterator's handle and index are there, the maximum has as many attributes as the
  -- index, and Berkeley DB meets no lock conflict.
  pub get_next-returns :
      (ahead : List Row)
      → length ahead < fuel
      → Pending reads L db ahead
      → IsSorted s.type ahead
      → Comes (filter (fits s i.max_key) ahead)
  get_next-returns ahead enough pending sorted =
      elim (split (fits s i.max_key) ahead) as (λ _. Comes (filter (fits s i.max_key) ahead)) [
        | inl (out, nothing) ↦
            let (w', j, ran, _, _) =
              get_next-ends reads L db open_iterator old fuel ahead enough pending
                (All-outside s.type i.max_key ahead out) in
            subst Comes (sym nothing) (w', ran)
        | inr (skipped, x, rest, same, hit, out, kept) ↦
            let parts : length ahead ≡ length skipped + suc (length rest) =
              ap length same ∙ length-append skipped (x ∷ rest) in
            subst Comes (sym kept) (
              finds_lem skipped x rest (omega arith) (subst (Pending reads L db) same pending)
                (subst (IsSorted s.type) same sorted) hit out)
      ]
