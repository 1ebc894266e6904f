-- ===== src/Structure.antt =====
-- class IndexStructure (example/Index.h and example/Index.cc): the layout of the keys of an index in
-- Berkeley DB, the handles that are open on it, and the transactions that have written to it.
-- Pointers to handles and transactions are numbers. Each method runs under one mutex, so a call is
-- one step.
pub mod Encoding
pub mod Wildcards
pub mod Transactions
use oxford_sigmod.Base.{
  ℕ, ◌+◌, ◌-◌, ◌/◌, ◌%◌, ◌^◌, zero, suc, Bool, true, false, Option, none, some, List, [], ◌∷◌, ◌++◌,
  length, take, drop, replicate, if◌then◌else◌, ltb, Ordering, is_lt,
}
use oxford_sigmod.Util.{keycmp}
use oxford_sigmod.Base.Sets.{insert, erase}
use oxford_sigmod.Types.{
  AttributeType, Attribute, Key, k_short, k_int, k_varchar, max_varchar_length,
}

pub record IndexStructure : Type 0 where
  pub type : List AttributeType
  pub size : ℕ
  pub read_only : Bool
  pub handles : List ℕ
  pub transactions : List ℕ

-- The bytes of an attribute of each type.
unfoldable pub attribute_size : AttributeType → ℕ
attribute_size k_short = 4
attribute_size k_int = 8
attribute_size k_varchar = max_varchar_length + 1

-- The loop of the constructor: `size_ += ...` for each attribute.
unfoldable pub sum_sizes : ℕ → List AttributeType → ℕ
unfolding attribute_size
sum_sizes size [] = size
sum_sizes size (t ∷ ts) = sum_sizes (size + attribute_size t) ts

-- The constructor, on the array of `attribute_count` types.
unfoldable pub new_structure : List AttributeType → IndexStructure
unfolding sum_sizes
new_structure type = record {
  type = type;
  size = sum_sizes 0 type;
  read_only = false;
  handles = [];
  transactions = [];
}

abbrev pub attribute_count : IndexStructure → ℕ
attribute_count s = length s.type

-- The bytes of a number, the least significant first.
unfoldable pub le_bytes : ℕ → ℕ → List ℕ
le_bytes zero v = []
le_bytes (suc n) v = v % 256 ∷ le_bytes n (v / 256)

-- `memcpy(_, bytes, n)`; a byte that was never written reads as 0.
unfoldable pub memcpy : ℕ → List ℕ → List ℕ
memcpy n bytes = take n (bytes ++ replicate n 0)

-- What stands for a NULL attribute: INT32_MAX or INT32_MIN, INT64_MAX or INT64_MIN, and 512 bytes
-- 127 before a NUL whatever `max` says.
unfoldable pub wildcard : AttributeType → Bool → List ℕ
unfolding le_bytes
wildcard k_short max = le_bytes 4 (if max then 2 ^ 31 - 1 else 2 ^ 31)
wildcard k_int max = le_bytes 8 (if max then 2 ^ 63 - 1 else 2 ^ 63)
wildcard k_varchar max = replicate max_varchar_length 127 ++ 0 ∷ []

-- One round of the loop in `GetBDBKey`.
unfoldable pub attribute_bytes : AttributeType → Bool → Option Attribute → List ℕ
unfolding wildcard memcpy attribute_size
attribute_bytes t max none = wildcard t max
attribute_bytes t max (some a) = memcpy (attribute_size t) a.bytes

-- `IndexStructure::GetBDBKey`. The loop writes the buffer from left to right. The source
-- reads as many attributes as the index has; a shorter array, which it would read past its end, is
-- ruled out by `Compatible` before every call, and what the second clause gives for it is not meant.
unfoldable pub get_bdb_key : List AttributeType → Key → Bool → List ℕ
unfolding attribute_bytes
get_bdb_key [] key max = []
get_bdb_key (t ∷ ts) [] max = attribute_bytes t max none ++ get_bdb_key ts [] max
get_bdb_key (t ∷ ts) (a ∷ key) max = attribute_bytes t max a ++ get_bdb_key ts key max

-- `IndexStructure::GetKey`
unfoldable pub get_key : List AttributeType → List ℕ → Key
unfolding memcpy attribute_size
get_key [] bytes = []
get_key (t ∷ ts) bytes =
    some (record { type = t; bytes = memcpy (attribute_size t) bytes })
    ∷ get_key ts (drop (attribute_size t) bytes)

unfoldable pub register_handle : ℕ → IndexStructure → IndexStructure
unfolding insert
register_handle handle s = record s { handles = insert handle s.handles }

unfoldable pub unregister_handle : ℕ → IndexStructure → IndexStructure
unfolding erase
unregister_handle handle s = record s { handles = erase handle s.handles }

-- False if the index is read-only.
unfoldable pub start_transaction : ℕ → IndexStructure → Bool × IndexStructure
unfolding insert
start_transaction tx s =
    if s.read_only then (false, s) else (true, record s { transactions = insert tx s.transactions })

unfoldable pub end_transaction : ℕ → IndexStructure → IndexStructure
unfolding erase
end_transaction tx s = record s { transactions = erase tx s.transactions }

-- False if open transactions have written to the index.
unfoldable pub make_read_only : IndexStructure → Bool × IndexStructure
make_read_only s =
    if ltb 0 (length s.transactions) then (false, s) else (true, record s { read_only = true })

-- The b-tree's comparison of two stored keys, once the structure of the index is found.
unfoldable pub compare_dbts : List AttributeType → List ℕ → List ℕ → Option Ordering
unfolding get_key keycmp
compare_dbts types a b = keycmp (get_key types a) (get_key types b)

abbrev pub below : List AttributeType → List ℕ → List ℕ → Bool
below types a b = elim (compare_dbts types a b) [ none ↦ false | some o ↦ is_lt o ]
