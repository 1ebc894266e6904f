-- ===== src/Api/Traversal.antt =====
-- A whole scan: GetRecords, and GetNext until it no longer returns kOk (example/BDBImpl.cc and
-- example/Iterator.cc).
use oxford_sigmod.Base.{
  ℕ, zero, suc, ◌<◌, ◌+◌, Bool, true, false, Option, none, some, List, [], ◌∷◌, ◌++◌, ◌≡◌, refl,
  arith, sym, ap, ◌∙◌, length, All, map, length-append, inl, inr,
}
use mathlib.Core.Path.{subst}
use oxford_sigmod.Types.{ErrorCode, k_ok, k_error_not_found, Key, Record}
use oxford_sigmod.Bdb.{Bdb, Row}
use oxford_sigmod.Bdb.Laws.{Cursors}
use oxford_sigmod.Structure.{IndexStructure, below, get_key}
use oxford_sigmod.World.{World, Iterator, Outcome, M, ◌>>=◌, pure, fail, returned, update}
use oxford_sigmod.Iterator.Loop.{at_row, ended}
use oxford_sigmod.Iterator.Range.{InRange}
use oxford_sigmod.Iterator.Next.{Reads, Pending, later, next-finds}
use oxford_sigmod.Iterator.Rows.{
  filter, within, within-WithinBound, IsNotAfter, IsSorted, split, IsSorted-split, All-both,
  All-outside,
}
use oxford_sigmod.Api.{Cell, get_next}
use oxford_sigmod.Api.Iteration.{
  record_of, value-runs, fetch_record-found, get_next-open, get_next-ended,
}

-- What a call of GetNext delivers.
abbrev delivered : ErrorCode → Cell Record → Option Record
delivered k_ok (some r) = r
delivered _ _ = none

module _ {B : Bdb} where
  -- The records that a client gets by calling GetNext until it no longer returns kOk, and what it
  -- returns then. At most `calls` calls are made.
  unfoldable pub fetch_all : ℕ → ℕ → ℕ → M B (List Record × ErrorCode)
  unfolding get_next
  fetch_all zero fuel it = fail
  fetch_all (suc calls) fuel it = do
    (code, cell) ← get_next fuel (some it) (some none)
    elim (delivered code cell) [
      | none ↦ pure ([], code)
      | some r ↦ do (records, final) ← fetch_all calls fuel it; pure (r ∷ records, final)
    ]

  -- What a client gets that comes to the end.
  abbrev pub delivery : List Record → World B → Outcome (List Record × ErrorCode) × World B
  delivery records w' = (returned (records, k_error_not_found), w')

module _ {B : Bdb} (s : IndexStructure) (L : Cursors B (below s.type)) (db it c : ℕ) where
  open L use {On, rows, on_rows}

  -- Nothing but the iterators and the environment has changed, and the rows are the same.
  abbrev pub Scanned : World B → World B → Type 0
  Scanned w w' =
      (F : ℕ → Option Iterator) × (e' : B.Env) × (w' ≡ record w { iterators = F; env = e' })
      × (rows db e' ≡ rows db w.env)

  Scanned-trans : (u v w : World B) → Scanned u v → Scanned v w → Scanned u w
  Scanned-trans u v w (F, e1, first, same) (G, e2, second, same') = (
    G,
    e2,
    second ∙ ap (λ (x : World B). record x { iterators = G; env = e2 }) first,
    same' ∙ ap (λ (x : World B). rows db x.env) first ∙ same,
  )

  -- An iterator that is open and not at its end, with these rows before it.
  pub record Ready (w : World B) (i : Iterator) (ahead : List Row) : Type 0 where
    pub reads : Reads w it c i s
    pub pending : Pending reads L db ahead
    pub going : i.end ≡ false
    pub open_iterator : i.closed ≡ false

  -- GetNext delivers the first row in range, and is ready with the rows behind it.
  advances :
      {w : World B} {i : Iterator} (fuel : ℕ) (skipped : List Row) (x : Row) (rest : List Row)
      → length skipped < fuel
      → Ready w i (skipped ++ x ∷ rest)
      → InRange s.type i.max_key x
      → All (λ y. (¬ InRange s.type i.max_key y) × IsNotAfter s.type y x) skipped
      → (w' : World B) × (j : Iterator) × (get_next fuel (some it) (some none) w
          ≡ (returned (k_ok, some (some (record_of s x))), w'))
        × Ready w' j rest
        × (j.max_key ≡ i.max_key)
        × Scanned w w'
  advances {w} {i} fuel skipped x rest enough ready fits out =
      let (F, e', z, ran, kept, on, behind, same) =
        next-finds ready.reads L db fuel skipped x rest enough ready.pending fits out in
      let reads = ready.reads in
      let w1 : World B = record w { iterators = F; env = e' } in
      let j : Iterator = record (at_row i x) { cvalue = some (record_of s x) } in
      let w2 : World B = record w1 { iterators = update F it (some j) } in
      let valued =
        value-runs w1 it (at_row i x) s reads.object reads.structure kept ready.going
          reads.at_object reads.at_structure reads.found in
      let reads' : Reads w2 it c j s = record {
        at_iterator = ground arith;
        at_cursor = reads.at_cursor;
        object = reads.object;
        structure = reads.structure;
        at_object = reads.at_object;
        at_structure = reads.at_structure;
        found = reads.found;
        counts = reads.counts;
      } in
      (
        w2,
        j,
        get_next-open fuel it none w w2 i _ reads.at_iterator ready.open_iterator (
            fetch_record-found fuel it none w w1 w2 (at_row i x) (record_of s x) ran kept
              ready.going valued),
        record {
          reads = reads';
          pending = later z.passed z.at_key refl (
              subst (λ a. On db c (record { passed = z.passed; at_key = z.at_key; ahead = a }) e')
                behind on);
          going = ready.going;
          open_iterator = ready.open_iterator;
        },
        refl,
        (update F it (some j), e', refl, on_rows on ∙ same),
      )

  fetch_all-ends :
      (w w' : World B) (calls fuel : ℕ)
      → get_next fuel (some it) (some none) w ≡ (returned (k_error_not_found, some none), w')
      → fetch_all (suc calls) fuel it w ≡ (returned ([], k_error_not_found), w')
  unfolding fetch_all
  fetch_all-ends w w' calls fuel ran = ground (arith, ran)

  fetch_all-goes_on :
      (w w' w'' : World B) (calls fuel : ℕ) (r : Record) (records : List Record) (final : ErrorCode)
      → get_next fuel (some it) (some none) w ≡ (returned (k_ok, some (some r)), w')
      → fetch_all calls fuel it w' ≡ (returned (records, final), w'')
      → fetch_all (suc calls) fuel it w ≡ (returned (r ∷ records, final), w'')
  unfolding fetch_all
  fetch_all-goes_on w w' w'' calls fuel r records final ran rest = ground (arith, ran, rest)

  abbrev pub in_range : Key → Row → Bool
  in_range max x = within (get_key s.type x.key) max

  abbrev pub Delivers : ℕ → ℕ → World B → Key → List Row → Type 0
  Delivers calls fuel w max ahead =
      (w' : World B) × (fetch_all calls fuel it w
        ≡ delivery (map (record_of s) (filter (in_range max) ahead)) w')
      × Scanned w w'
      × (j : Iterator) × (w'.iterators it ≡ some (ended j))

  -- The first row in range is delivered, and then what the calls after it deliver.
  continues_lem :
      (calls fuel : ℕ) (w : World B) (i : Iterator) (skipped : List Row) (x : Row) (rest : List Row)
      → length skipped < fuel
      → Ready w i (skipped ++ x ∷ rest)
      → IsSorted s.type (skipped ++ x ∷ rest)
      → in_range i.max_key x ≡ true
      → All (λ y. in_range i.max_key y ≡ false) skipped
      → filter (in_range i.max_key) (skipped ++ x ∷ rest) ≡ x ∷ filter (in_range i.max_key) rest
      → ((w1 : World B) (j : Iterator)
          → Ready w1 j rest
          → IsSorted s.type rest
          → Delivers calls fuel w1 j.max_key rest)
      → Delivers (suc calls) fuel w i.max_key (skipped ++ x ∷ rest)
  continues_lem calls fuel w i skipped x rest enough ready sorted hit out kept next =
      let (before, after) = IsSorted-split s.type skipped x rest sorted in
      let (w1, j, ran, next_ready, same_max, scanned) =
        advances fuel skipped x rest enough ready
          (within-WithinBound (get_key s.type x.key) i.max_key hit)
          (All-both s.type (λ y. ¬ InRange s.type i.max_key y) (λ y. IsNotAfter s.type y x) skipped
            (All-outside s.type i.max_key skipped out) before) in
      let (w2, goes_on, scanned', k, at_end) =
        subst (λ max. Delivers calls fuel w1 max rest) same_max (next w1 j next_ready after) in
      (
        w2,
        fetch_all-goes_on w w1 w2 calls fuel (record_of s x)
              (map (record_of s) (filter (in_range i.max_key) rest)) k_error_not_found ran goes_on
            ∙ ap (λ rows. delivery (map (record_of s) rows) w2) (sym kept),
        Scanned-trans w w1 w2 scanned scanned',
        k,
        at_end,
      )

  -- From an iterator that is open and not at its end, the calls of GetNext deliver the records of the
  -- rows before it that are in range, in the order of the rows, and then kErrorNotFound.
  pub fetch_all-Delivers :
      (calls fuel : ℕ) (ahead : List Row) (w : World B) (i : Iterator)
      → length ahead < calls
      → length ahead < fuel
      → Ready w i ahead
      → IsSorted s.type ahead
      → Delivers calls fuel w i.max_key ahead
  fetch_all-Delivers zero fuel ahead w i few enough ready sorted = absurd (omega arith)
  fetch_all-Delivers (suc calls) fuel ahead w i few enough ready sorted =
      elim (split (in_range i.max_key) ahead)
        as (λ _. Delivers (suc calls) fuel w i.max_key ahead) [
          | inl (out, nothing) ↦
              let (F, e', j, ran, kept, final) =
                get_next-ended ready.reads L db ready.open_iterator none fuel ahead enough
                  ready.pending (All-outside s.type i.max_key ahead out) in
              let w' : World B = record w { iterators = F; env = e' } in
              (
                w',
                ground (arith, fetch_all-ends w w' calls fuel ran, nothing),
                (F, e', refl, final),
                j,
                kept,
              )
          | inr (skipped, x, rest, same, hit, out, kept) ↦
              let parts : length ahead ≡ length skipped + suc (length rest) =
                ap length same ∙ length-append skipped (x ∷ rest) in
              subst (Delivers (suc calls) fuel w i.max_key) (sym same) (
                continues_lem calls fuel w i skipped x rest (omega arith)
                  (subst (Ready w i) same ready) (subst (IsSorted s.type) same sorted) hit out
                  (sym (ap (filter (in_range i.max_key)) same) ∙ kept)
                  λ w1 j next_ready after.
                    fetch_all-Delivers calls fuel rest w1 j (omega arith) (omega arith) next_ready
                      after)
        ]
