-- ===== src/Table/Refinement.antt =====
-- Sequences of requests on an open handle, against the same on a list of rows (example/BDBImpl.cc,
-- example/Index.cc and example/Iterator.cc).
use oxford_sigmod.Base.{
  ℕ, suc, ◌+◌, ◌<◌, ◌≤◌, Option, none, some, List, [], ◌∷◌, ◌≡◌, refl, arith, length, All, inl, inr,
  ap,
}
use oxford_sigmod.Types.{AttributeType, Key}
use oxford_sigmod.Bdb.{Bdb, Row}
use oxford_sigmod.Bdb.Laws.{Cursors}
use oxford_sigmod.Structure.{IndexStructure, below}
use oxford_sigmod.Structure.Encoding.{IsExact}
use oxford_sigmod.World.{World, returned}
use oxford_sigmod.Index.Match.{matches}
use oxford_sigmod.Index.Changes.{with_value}
use oxford_sigmod.Iterator.Order.{length-put_row}
use oxford_sigmod.Table.{
  Request, insert, remove, change, select, IsValid, answer, answer_all, serve, serve_all, flags_of,
  stored,
}
use oxford_sigmod.Table.State.{IsTable}
use oxford_sigmod.Table.Sorted.{length-left}
use oxford_sigmod.Table.Changes.{
  insert_record-Answers, delete_record-Answers, update_record-Answers,
}
use oxford_sigmod.Table.Selection.{select-Answers}

IsExact-length : (types : List AttributeType) (k : Key) → IsExact types k → length k ≡ length types
IsExact-length [] [] h = refl
IsExact-length [] (_ ∷ _) h = absurd h
IsExact-length (t ∷ ts) [] h = absurd h
IsExact-length (t ∷ ts) (none ∷ k) h = absurd h
IsExact-length (t ∷ ts) (some a ∷ k) h = ap suc (IsExact-length ts k h.2)

-- A request adds at most one row.
length-answer :
    (types : List AttributeType) (q : Request) (rows : List Row)
    → length (answer types q rows).1 ≤ suc (length rows)
unfolding answer
length-answer types (insert r) rows =
    omega (arith, length-put_row (below types) (stored types r) rows)
length-answer types (remove r by_key) rows =
    omega (arith, length-left (matches types r (flags_of by_key)) (λ x. []) (λ x. inl refl) rows)
length-answer types (change r by_key payload) rows = omega (
  arith,
  length-left (matches types r (flags_of by_key)) (λ x. with_value payload x ∷ [])
      (λ x. inr (payload, refl)) rows,
)
length-answer types (select min max) rows = omega arith

module _ {B : Bdb} {h p db : ℕ} {s : IndexStructure} (L : Cursors B (below s.type)) (tx : Option ℕ)
    (calls fuel : ℕ) where
  serve-answers :
      (q : Request) (rows : List Row) (w : World B)
      → IsTable h p db s L w rows
      → IsValid s.type q
      → length rows < calls
      → length rows < fuel
      → (w' : World B) × (serve calls fuel tx h q w ≡ (returned (answer s.type q rows).0, w'))
        × IsTable h p db s L w' (answer s.type q rows).1
  unfolding serve answer
  serve-answers (insert r) rows w table fits few enough =
      let (w', ran, table') = insert_record-Answers table tx r fits in
      (w', ground (arith, ran), table')
  serve-answers (remove r by_key) rows w table exact few enough =
      let (w', ran, table') =
        delete_record-Answers table tx r exact (IsExact-length s.type r.key exact) fuel by_key in
      (w', ground (arith, ran), table')
  serve-answers (change r by_key payload) rows w table exact few enough =
      let (w', ran, table') =
        update_record-Answers table tx r exact (IsExact-length s.type r.key exact) fuel by_key
          payload in
      (w', ground (arith, ran), table')
  serve-answers (select min max) rows w table (min_fits, max_fits) few enough =
      select-Answers table calls fuel tx min max min_fits max_fits few enough

  -- A client's requests on one open handle, in any number and order, are answered as the list of
  -- the index's rows answers them, and leave the rows of that list. InsertRecord returns kOk and
  -- puts the record behind those that its encoded key is not below. DeleteRecord and UpdateRecord,
  -- without kMatchDuplicates, remove or change the first record with the key, and with the payload
  -- unless kIgnorePayload is set, and return kOk; without such a record they return kErrorNotFound
  -- and change nothing. GetRecords, the calls of GetNext on its iterator and CloseIterator give
  -- the records not below the encoded minimum with no attribute above the maximum, in order. The
  -- handle has a database, the rows are sorted, the index is not read-only, the keys have its
  -- attribute count, those to remove or change have no NULL and exactly the bytes of their types,
  -- the calls of GetNext and the fuel exceed the number of rows and requests, and Berkeley DB
  -- meets no lock conflict.
  pub serve_all-refines :
      (requests : List Request) (rows : List Row) (w : World B)
      → IsTable h p db s L w rows
      → All (IsValid s.type) requests
      → length rows + length requests < calls
      → length rows + length requests < fuel
      → (w' : World B) × (serve_all calls fuel tx h requests w
          ≡ (returned (answer_all s.type requests rows).0, w'))
        × IsTable h p db s L w' (answer_all s.type requests rows).1
  unfolding serve_all answer_all
  serve_all-refines [] rows w table valid few enough = (w, refl, table)
  serve_all-refines (q ∷ requests) rows w table valid few enough =
      let short = length-answer s.type q rows in
      let (w1, ran, table1) = serve-answers q rows w table valid.0 (omega arith) (omega arith) in
      let (w2, goes_on, table2) =
        serve_all-refines requests (answer s.type q rows).1 w1 table1 valid.1 (omega arith)
          (omega arith) in
      (w2, ground (arith, ran, goes_on), table2)
