-- ===== src/Bdb/Laws.antt =====
-- What the program relies on of Berkeley DB's cursors, as its manual documents them, for calls that
-- meet no lock conflict: a cursor stands in the sorted rows of its database; DB_NEXT goes to the next
-- row, DB_NEXT_DUP only to one with the same key, DB_SET_RANGE to the first row whose key is not
-- below the given one, DB_GET_BOTH to the first row with the given key and value; a change goes to
-- the row at the cursor. The order is that of the registered comparison function.
use oxford_sigmod.Base.{
  ℕ, Bool, true, false, not, ◌&&◌, Option, none, some, List, [], ◌∷◌, ◌≡◌, if◌then◌else◌, ◌==◌,
}
use oxford_sigmod.Bdb.{
  Bdb, Dbt, Row, Code, success, not_found, GetFlag, db_set_range, db_get_both, db_next, db_next_dup,
  done,
}

-- The rows up to the cursor, nearest first, the key at the cursor, and the rows after it.
pub record Scan : Type 0 where
  pub passed : List Row
  pub at_key : Dbt
  pub ahead : List Row

-- Puts the passed rows back in front.
abbrev pub unwind : List Row → List Row → List Row
unwind [] rows = rows
unwind (r ∷ passed) rows = unwind passed (r ∷ rows)

abbrev pub contents : Scan → List Row
contents z = unwind z.passed z.ahead

abbrev pub start : List Row → Scan
start rows = record { passed = []; at_key = []; ahead = rows }

unfoldable pub same_bytes : Dbt → Dbt → Bool
same_bytes [] [] = true
same_bytes [] (_ ∷ _) = false
same_bytes (_ ∷ _) [] = false
same_bytes (a ∷ s) (b ∷ t) = a == b && same_bytes s t

unfoldable pub same_key : (Dbt → Dbt → Bool) → Dbt → Dbt → Bool
same_key less a b = not (less a b) && not (less b a)

-- The first row that passes the test, from a list of rows behind those passed.
unfoldable pub seek : (Row → Bool) → List Row → List Row → Option Scan
seek test passed [] = none
seek test passed (r ∷ rows) =
    let rest = seek test (r ∷ passed) rows in
    if test r then some (record { passed = r ∷ passed; at_key = r.key; ahead = rows }) else rest

-- The row at the cursor; a failed call leaves the two arguments as they were.
abbrev pub row_at : Row → Option Scan → Code × Row
row_at r none = (not_found, r)
row_at r (some z) = elim z.passed [ [] ↦ (not_found, r) | s ∷ _ ↦ (success, s) ]

abbrev pub moved : Scan → Option Scan → Scan
moved z none = z
moved z (some z') = z'

abbrev pub forward : Scan → List Row → Option Scan
forward z [] = none
forward z (r ∷ rows) = some (record { passed = r ∷ z.passed; at_key = r.key; ahead = rows })

abbrev pub forward_dup : (Dbt → Dbt → Bool) → Scan → List Row → Option Scan
forward_dup less z [] = none
forward_dup less z (r ∷ rows) =
    if same_key less r.key z.at_key
    then some (record { passed = r ∷ z.passed; at_key = r.key; ahead = rows })
    else none

-- Where a call of `get` goes, if it finds a row.
abbrev pub target : (Dbt → Dbt → Bool) → GetFlag → Dbt → Dbt → Scan → Option Scan
target less db_next k v z = forward z z.ahead
target less db_next_dup k v z = forward_dup less z z.ahead
target less db_set_range k v z = seek (λ r. not (less r.key k)) [] (contents z)
target less db_get_both k v z =
    seek (λ r. same_key less r.key k && same_bytes r.value v) [] (contents z)

-- A row that is put goes behind every row whose key is not greater, so also behind its duplicates.
unfoldable pub put_row : (Dbt → Dbt → Bool) → Row → List Row → List Row
put_row less r [] = r ∷ []
put_row less r (x ∷ rows) = if less r.key x.key then r ∷ x ∷ rows else x ∷ put_row less r rows

module _ (B : Bdb) (less : Dbt → Dbt → Bool) where
  pub record Cursors : Type 1 where
    pub rows : ℕ → B.Env → List Row
    -- A cursor on a database, where it stands, in an environment.
    pub On : ℕ → ℕ → Scan → B.Env → Type 0
    pub on_rows : {db c : ℕ} {z : Scan} {e : B.Env} → On db c z e → rows db e ≡ contents z
    pub begins :
        (db : ℕ) (tx : Option ℕ) (e : B.Env)
        → (t : ℕ) × (e' : B.Env) × (B.txn_begin tx e ≡ (done t, e')) × (rows db e' ≡ rows db e)
    pub commits :
        (db t : ℕ) (e : B.Env)
        → (e' : B.Env) × (B.txn_commit t e ≡ (done tt, e')) × (rows db e' ≡ rows db e)
    pub stores :
        (db : ℕ) (tx : Option ℕ) (k v : Dbt) (e : B.Env)
        → (e' : B.Env) × (B.db_put db tx k v e ≡ (done success, e'))
          × (rows db e' ≡ put_row less (record { key = k; value = v }) (rows db e))
    pub opens :
        (db : ℕ) (tx : Option ℕ) (e : B.Env)
        → (c : ℕ) × (e' : B.Env) × (B.db_cursor db tx e ≡ (done c, e'))
          × On db c (start (rows db e)) e'
    pub gets :
        {db c : ℕ} {z : Scan} {e : B.Env} (flag : GetFlag) (k v : Dbt)
        → On db c z e
        → (e' : B.Env) × (B.cursor_get c flag k v e
            ≡ (done (row_at (record { key = k; value = v }) (target less flag k v z)), e'))
          × On db c (moved z (target less flag k v z)) e'
    pub deletes :
        {db c : ℕ} {z : Scan} {e : B.Env} (r : Row) (p : List Row)
        → z.passed ≡ r ∷ p
        → On db c z e
        → (e' : B.Env) × (B.cursor_del c e ≡ (done success, e'))
          × On db c (record z { passed = p }) e'
    pub puts :
        {db c : ℕ} {z : Scan} {e : B.Env} (k v : Dbt) (r : Row) (p : List Row)
        → z.passed ≡ r ∷ p
        → On db c z e
        → (e' : B.Env) × (B.cursor_put_current c k v e ≡ (done success, e'))
          × On db c (record z { passed = record r { value = v } ∷ p }) e'
    pub closes :
        {db c : ℕ} {z : Scan} {e : B.Env}
        → On db c z e
        → (e' : B.Env) × (B.cursor_close c e ≡ (done tt, e')) × (rows db e' ≡ rows db e)
