-- ===== src/Table.antt =====
-- An index as a table of rows: what a client asks of an open handle, the answers that
-- example/BDBImpl.cc gives, and the same on a list of rows.
pub mod State
pub mod Sorted
pub mod Selection
pub mod Changes
pub mod Refinement
pub mod Creation
pub mod Commuting
pub mod Loading
use oxford_sigmod.Base.{
  ℕ, Bool, true, false, Option, none, some, List, [], ◌∷◌, if◌then◌else◌, map, ◌≡◌, length,
}
use oxford_sigmod.Types.{ErrorCode, k_ok, AttributeType, Key, Record, Block}
use oxford_sigmod.Bdb.{Bdb, Row}
use oxford_sigmod.Bdb.Laws.{put_row}
use oxford_sigmod.Structure.{below, get_bdb_key, get_key}
use oxford_sigmod.Structure.Encoding.{IsExact}
use oxford_sigmod.World.{M, ◌>>=◌, pure}
use oxford_sigmod.Index.Match.{matches, change_first}
use oxford_sigmod.Index.Changes.{with_value}
use oxford_sigmod.Index.Single.{outcome}
use oxford_sigmod.Iterator.Rows.{filter, selected}
use oxford_sigmod.Api.{Cell, insert_record, update_record, delete_record, get_records, end_iterator}
use oxford_sigmod.Api.Traversal.{fetch_all}

-- The Boolean says whether the payload is ignored: kIgnorePayload, which is 2, or no flag.
pub data Request : Type 0 where
  insert : Record → Request
  remove : Record → Bool → Request
  change : Record → Bool → Block → Request
  select : Key → Key → Request

pub data Answer : Type 0 where
  code : ErrorCode → Answer
  selection : List Record → Answer

abbrev pub flags_of : Bool → ℕ
flags_of ignore_payload = if ignore_payload then 2 else 0

module _ (types : List AttributeType) where
  -- The keys have the index's attributes.
  abbrev pub IsValid : Request → Type 0
  IsValid (insert r) = length r.key ≡ length types
  IsValid (remove r by_key) = IsExact types r.key
  IsValid (change r by_key payload) = IsExact types r.key
  IsValid (select min max) = (length min ≡ length types) × (length max ≡ length types)

  abbrev pub stored : Record → Row
  stored r = record { key = get_bdb_key types r.key false; value = r.payload }

  abbrev pub loaded : Row → Record
  loaded x = record { key = get_key types x.key; payload = x.value }

  abbrev pub changed : (ErrorCode × List Row) → Answer × List Row
  changed result = (code result.0, result.1)

  -- On a list of rows: a record is put behind those that its key is not below; the first matching
  -- record is removed or changed; a range selects the rows from its encoded minimum on that are
  -- attribute by attribute within its maximum.
  unfoldable pub answer : Request → List Row → Answer × List Row
  answer (insert r) rows = (code k_ok, put_row (below types) (stored r) rows)
  answer (remove r by_key) rows =
      changed (outcome (change_first (matches types r (flags_of by_key)) (λ x. []) rows) rows)
  answer (change r by_key payload) rows = changed (
      outcome
        (change_first (matches types r (flags_of by_key)) (λ x. with_value payload x ∷ []) rows)
        rows)
  answer (select min max) rows = (
    selection (map loaded (filter (selected types (get_bdb_key types min false) max) rows)),
    rows,
  )

  unfoldable pub answer_all : List Request → List Row → List Answer × List Row
  unfolding answer
  answer_all [] rows = ([], rows)
  answer_all (q ∷ requests) rows =
      let (a, rows') = answer q rows in
      let (answers, rows'') = answer_all requests rows' in (a ∷ answers, rows'')

-- The iterator that GetRecords gives.
abbrev pub given_iterator : ErrorCode × Cell ℕ → Option ℕ
given_iterator (k_ok, some it) = it
given_iterator _ = none

module _ {B : Bdb} (calls fuel : ℕ) (tx : Option ℕ) (h : ℕ) where
  -- A client closes the iterator once it has all records. At most `calls` calls of GetNext are made.
  unfoldable pub serve : Request → M B Answer
  unfolding insert_record delete_record update_record get_records fetch_all end_iterator
  serve (insert r) = do c ← insert_record tx (some h) (some r); pure (code c)
  serve (remove r by_key) = do
    c ← delete_record fuel tx (some h) (some r) (flags_of by_key)
    pure (code c)
  serve (change r by_key payload) = do
    c ← update_record fuel tx (some h) (some r) (some payload) (flags_of by_key)
    pure (code c)
  serve (select min max) = do
    (c, cell) ← get_records tx (some h) min max (some none)
    elim (given_iterator (c, cell)) [
      | none ↦ pure (code c)
      | some it ↦ do
        (records, final) ← fetch_all calls fuel it
        (closed, cell') ← end_iterator (some (some it))
        pure (selection records)
    ]

  unfoldable pub serve_all : List Request → M B (List Answer)
  unfolding serve
  serve_all [] = pure []
  serve_all (q ∷ requests) = do a ← serve q; answers ← serve_all requests; pure (a ∷ answers)
