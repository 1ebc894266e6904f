-- ===== src/Table/Loading.antt =====
-- Records that are inserted in any order (example/BDBImpl.cc), before other requests.
use oxford_sigmod.Base.{
  ℕ, suc, ◌+◌, ◌<◌, Option, List, [], ◌∷◌, ◌≡◌, refl, sym, ap, ◌∙◌, arith, length, All, ◌++◌, map,
}
use mathlib.Core.List.{Permᴰ}
use oxford_sigmod.Types.{AttributeType, Record, k_ok}
use oxford_sigmod.Bdb.{Bdb, Row}
use oxford_sigmod.Bdb.Laws.{Cursors, put_row}
use oxford_sigmod.Structure.{IndexStructure, below}
use oxford_sigmod.World.{World, returned}
use oxford_sigmod.Table.{
  Request, insert, Answer, IsValid, answer, answer_all, serve_all, stored, code,
}
use oxford_sigmod.Table.State.{IsTable}
use oxford_sigmod.Table.Refinement.{serve_all-refines}
use oxford_sigmod.Table.Commuting.{AreDistinct, All-perm, put_all, put_all-perm}

module _ (types : List AttributeType) where
  map-perm :
      {A : Type 0} (f : Record → A) (same : (a b : Record) → f a ≡ f b) {xs ys : List Record}
      → Permᴰ xs ys
      → map f xs ≡ map f ys
  map-perm f same Permᴰ.nil = refl
  map-perm f same (Permᴰ.cons {a = a} {b = b} {l₁ = l₁} e p) =
      ap (λ x. x ∷ map f l₁) (same a b) ∙ ap (λ (l : List _). f b ∷ l) (map-perm f same p)
  map-perm f same (Permᴰ.swap {a = a} {b = b} {a' = a'} {b' = b'} {l = l} e g) =
      ap (λ x. x ∷ f b ∷ map f l) (same a a') ∙ ap (λ x. f a' ∷ x ∷ map f l) (same b b')
  map-perm f same (Permᴰ.trans p q) = map-perm f same p ∙ map-perm f same q

  -- Each of the records is inserted, and then come the requests.
  abbrev pub load : List Record → List Request → List Request
  load records requests = map insert records ++ requests

  answer_all-load :
      (records : List Record) (requests : List Request) (rows : List Row)
      → answer_all types (load records requests) rows ≡ (
        map (λ r. code k_ok) records ++ (answer_all types requests (put_all types records rows)).0,
        (answer_all types requests (put_all types records rows)).1,
      )
  unfolding answer_all answer
  answer_all-load [] requests rows = refl
  answer_all-load (a ∷ records) requests rows =
      ground (arith, answer_all-load records requests (put_row (below types) (stored types a) rows))

  load-IsValid :
      (records : List Record) (requests : List Request)
      → All (λ r. length r.key ≡ length types) records
      → All (IsValid types) requests
      → All (IsValid types) (load records requests)
  load-IsValid [] requests fit valid = valid
  load-IsValid (a ∷ records) requests fit valid = (fit.0, load-IsValid records requests fit.1 valid)

  length-load :
      (records : List Record) (requests : List Request)
      → length (load records requests) ≡ length records + length requests
  length-load [] requests = omega arith
  length-load (a ∷ records) requests = ground (arith, length-load records requests)

  length-perm : {xs ys : List Record} → Permᴰ xs ys → length xs ≡ length ys
  length-perm Permᴰ.nil = refl
  length-perm (Permᴰ.cons e p) = ap suc (length-perm p)
  length-perm (Permᴰ.swap e f) = refl
  length-perm (Permᴰ.trans p q) = length-perm p ∙ length-perm q

  answer_all-perm :
      {xs ys : List Record} (p : Permᴰ xs ys) (requests : List Request) (rows : List Row)
      → AreDistinct types xs
      → answer_all types (load xs requests) rows ≡ answer_all types (load ys requests) rows
  answer_all-perm {xs} {ys} p requests rows distinct =
      answer_all-load xs requests rows
      ∙ ap
          (λ codes. (
            codes ++ (answer_all types requests (put_all types xs rows)).0,
            (answer_all types requests (put_all types xs rows)).1,
          ))
          (map-perm (λ r. code k_ok) (λ a b. refl) p)
      ∙ ap
          (λ left. (
            map (λ (r : Record). code k_ok) ys ++ (answer_all types requests left).0,
            (answer_all types requests left).1,
          ))
          (put_all-perm types p rows distinct)
      ∙ sym (answer_all-load ys requests rows)

module _ {B : Bdb} {h p db : ℕ} {s : IndexStructure} (L : Cursors B (below s.type)) (tx : Option ℕ)
    (calls fuel : ℕ) where
  -- Records of which no two have the same encoded key may be inserted in any order before other
  -- requests of a client on an open handle that has a database: all calls return the same,
  -- InsertRecord and those after it, and the index has the same rows in the end. The rows before
  -- are sorted, the index is not read-only, the keys have its attribute count, those to remove or
  -- change have no NULL and exactly the bytes of their types, UpdateRecord and DeleteRecord are
  -- called without kMatchDuplicates, the calls of GetNext after a GetRecords and the fuel exceed
  -- the number of rows and requests, and Berkeley DB meets no lock conflict.
  pub load-commutes :
      (xs ys : List Record) (requests : List Request) (rows : List Row) (w : World B)
      → Permᴰ xs ys
      → AreDistinct s.type xs
      → IsTable h p db s L w rows
      → All (λ r. length r.key ≡ length s.type) xs
      → All (IsValid s.type) requests
      → length rows + length xs + length requests < calls
      → length rows + length xs + length requests < fuel
      → (answers : List Answer) × (w1 : World B) × (w2 : World B) × (serve_all calls fuel tx h
            (load s.type xs requests)
            w
          ≡ (returned answers, w1))
        × (serve_all calls fuel tx h (load s.type ys requests) w ≡ (returned answers, w2))
        × (L.rows db w1.env ≡ L.rows db w2.env)
  load-commutes xs ys requests rows w perm distinct table fit valid few enough =
      let same = answer_all-perm s.type perm requests rows distinct in
      let first = length-load s.type xs requests in
      let second = length-load s.type ys requests in
      let alike = length-perm s.type perm in
      let (w1, ran, table1) =
        serve_all-refines L tx calls fuel (load s.type xs requests) rows w table
          (load-IsValid s.type xs requests fit valid) (omega arith) (omega arith) in
      let (w2, ran', table2) =
        serve_all-refines L tx calls fuel (load s.type ys requests) rows w table
          (load-IsValid s.type ys requests
            (All-perm s.type (λ r. length r.key ≡ length s.type) perm fit) valid)
          (omega arith) (omega arith) in
      (
        (answer_all s.type (load s.type xs requests) rows).0,
        w1,
        w2,
        ran,
        ran' ∙ ap (λ x. (returned x.0, w2)) (sym same),
        table1.same_rows ∙ ap (λ x. x.1) same ∙ sym table2.same_rows,
      )
