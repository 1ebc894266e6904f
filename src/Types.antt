-- ===== src/Types.antt =====
-- include/contest_interface.h: status codes, flags, and the data that cross the interface. The
-- bytes of the union in an attribute are kept as a list, as `memcpy` and the comparisons read them.
use oxford_sigmod.Base.{ℕ, Option, List, length}

pub data ErrorCode : Type 0 where
  k_ok k_transaction_aborted k_error_out_of_memory k_error_deadlock : ErrorCode
  k_error_index_exists k_error_unknown_index k_error_iterator_closed : ErrorCode
  k_error_not_found k_error_transaction_closed k_error_incompatible_key : ErrorCode
  k_error_open_transactions k_error_generic_failure : ErrorCode

pub data AttributeType : Type 0 where
  k_short k_int k_varchar : AttributeType

-- MAX_VARCHAR_LENGTH
abbrev pub max_varchar_length : ℕ
max_varchar_length = 512

-- The first bytes of the union hold the value: 4 of `short_value`, 8 of `int_value`, or the 513 of
-- `char_value`, little-endian.
pub record Attribute : Type 0 where
  pub type : AttributeType
  pub bytes : List ℕ

-- An array of `attribute_count` pointers, each of which may be NULL.
abbrev pub Key : Type 0
Key = List (Option Attribute)

abbrev pub attribute_count : Key → ℕ
attribute_count key = length key

-- A block's size is the length of its data.
abbrev pub Block : Type 0
Block = List ℕ

pub record Record : Type 0 where
  pub key : Key
  pub payload : Block
