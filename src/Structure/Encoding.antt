-- ===== src/Structure/Encoding.antt =====
-- `GetBDBKey` and `GetKey` (example/Index.cc).
use oxford_sigmod.Base.{
  ℕ, ◌+◌, ◌-◌, ◌≤◌, ◌^◌, zero, suc, Bool, Option, none, some, List, [], ◌∷◌, ◌++◌, ◌≡◌, refl, ap,
  ◌∙◌, length, take, drop, replicate, if◌then◌else◌, arith, length-append, length-replicate,
  take-append, drop-append, append_assoc,
}
use oxford_sigmod.Types.{AttributeType, Attribute, Key, k_short, k_int, k_varchar}
use oxford_sigmod.Util.Lexicographic.{HasTypes}
use oxford_sigmod.Structure.{
  attribute_size, sum_sizes, new_structure, le_bytes, memcpy, wildcard, attribute_bytes,
  get_bdb_key, get_key,
}

pub length-le_bytes : (n v : ℕ) → length (le_bytes n v) ≡ n
unfolding le_bytes
length-le_bytes zero v = refl
length-le_bytes (suc n) v = ap suc (length-le_bytes n _)

length-take_le : (n : ℕ) (xs : List ℕ) → n ≤ length xs → length (take n xs) ≡ n
length-take_le zero xs h = refl
length-take_le (suc n) [] h = absurd (omega arith)
length-take_le (suc n) (x ∷ xs) h = ap suc (length-take_le n xs (omega arith))

take-append-drop_le : (n : ℕ) (xs ys : List ℕ) → n ≤ length xs → take n (xs ++ ys) ++ drop n xs ≡ xs
take-append-drop_le zero xs ys h = refl
take-append-drop_le (suc n) [] ys h = absurd (omega arith)
take-append-drop_le (suc n) (x ∷ xs) ys h =
    ap (λ (t : List ℕ). x ∷ t) (take-append-drop_le n xs ys (omega arith))

length-drop_le : (n : ℕ) (xs : List ℕ) → length (drop n xs) ≡ length xs - n
length-drop_le zero xs = omega arith
length-drop_le (suc n) [] = omega arith
length-drop_le (suc n) (x ∷ xs) = omega (arith, length-drop_le n xs)

pub length-memcpy : (n : ℕ) (xs : List ℕ) → length (memcpy n xs) ≡ n
unfolding memcpy
length-memcpy n xs =
    length-take_le n (xs ++ replicate n 0)
      (omega (arith, length-append xs (replicate n 0), length-replicate {A = ℕ} n 0))

-- Copying as many bytes as a prefix has gives the prefix.
pub memcpy-append : (n : ℕ) (xs ys : List ℕ) → length xs ≡ n → memcpy n (xs ++ ys) ≡ xs
unfolding memcpy
memcpy-append n xs ys h =
    ap (take n) (append_assoc xs ys (replicate n 0)) ∙ take-append xs (ys ++ replicate n 0) n h

pub memcpy-all : (n : ℕ) (xs : List ℕ) → length xs ≡ n → memcpy n xs ≡ xs
unfolding memcpy
memcpy-all n xs h = take-append xs (replicate n 0) n h

pub length-wildcard : (t : AttributeType) (max : Bool) → length (wildcard t max) ≡ attribute_size t
unfolding wildcard attribute_size
length-wildcard k_short max = length-le_bytes 4 (if max then 2 ^ 31 - 1 else 2 ^ 31)
length-wildcard k_int max = length-le_bytes 8 (if max then 2 ^ 63 - 1 else 2 ^ 63)
length-wildcard k_varchar max =
    omega
      (arith, length-append {A = ℕ} (replicate 512 127) (0 ∷ []), length-replicate {A = ℕ} 512 127)

pub length-attribute_bytes :
    (t : AttributeType) (max : Bool) (a : Option Attribute)
    → length (attribute_bytes t max a) ≡ attribute_size t
unfolding attribute_bytes
length-attribute_bytes t max none = length-wildcard t max
length-attribute_bytes t max (some a) = length-memcpy (attribute_size t) a.bytes

-- The sizes of all attributes together.
abbrev pub total_size : List AttributeType → ℕ
total_size [] = 0
total_size (t ∷ ts) = attribute_size t + total_size ts

sum_sizes-total_size : (n : ℕ) (ts : List AttributeType) → sum_sizes n ts ≡ n + total_size ts
unfolding sum_sizes
sum_sizes-total_size n [] = omega arith
sum_sizes-total_size n (t ∷ ts) = omega (arith, sum_sizes-total_size (n + attribute_size t) ts)

length-get_bdb_key_total :
    (ts : List AttributeType) (key : Key) (max : Bool)
    → length key ≡ length ts
    → length (get_bdb_key ts key max) ≡ total_size ts
unfolding get_bdb_key
length-get_bdb_key_total [] key max fits = refl
length-get_bdb_key_total (t ∷ ts) [] max fits = absurd (omega arith)
length-get_bdb_key_total (t ∷ ts) (a ∷ key) max fits = omega (
  arith,
  length-append (attribute_bytes t max a) (get_bdb_key ts key max),
  length-attribute_bytes t max a,
  length-get_bdb_key_total ts key max (omega arith),
)

-- For every array of types and every key with as many attributes, NULL or not, `GetBDBKey` fills a
-- buffer of exactly `size_` bytes, the number that the constructor of the structure computed.
pub length-get_bdb_key :
    (ts : List AttributeType) (key : Key) (max : Bool)
    → length key ≡ length ts
    → length (get_bdb_key ts key max) ≡ (new_structure ts).size
unfolding new_structure
length-get_bdb_key ts key max fits =
    omega (arith, sum_sizes-total_size 0 ts, length-get_bdb_key_total ts key max fits)

-- A key of these types whose attributes hold exactly the bytes of their types.
abbrev pub IsExact : List AttributeType → Key → Type 0
IsExact [] [] = Unit {0}
IsExact [] (_ ∷ _) = ⊥
IsExact (t ∷ ts) [] = ⊥
IsExact (t ∷ ts) (none ∷ k) = ⊥
IsExact (t ∷ ts) (some a ∷ k) = (a.type ≡ t) × (length a.bytes ≡ attribute_size t) × IsExact ts k

pub IsExact-HasTypes : (ts : List AttributeType) (k : Key) → IsExact ts k → HasTypes ts k
IsExact-HasTypes [] [] h = tt
IsExact-HasTypes [] (x ∷ k) h = absurd h
IsExact-HasTypes (t ∷ ts) [] h = absurd h
IsExact-HasTypes (t ∷ ts) (none ∷ k) h = absurd h
IsExact-HasTypes (t ∷ ts) (some a ∷ k) h = (h.0, IsExact-HasTypes ts k h.2)

-- What is decoded is a key with no NULL and exactly the bytes of the index's types, whatever the
-- buffer holds.
pub get_key-IsExact : (ts : List AttributeType) (bytes : List ℕ) → IsExact ts (get_key ts bytes)
unfolding get_key
get_key-IsExact [] bytes = tt
get_key-IsExact (t ∷ ts) bytes = (
  refl,
  length-memcpy (attribute_size t) bytes,
  get_key-IsExact ts (drop (attribute_size t) bytes),
)

-- Decoding an encoded key gives the key back, attribute by attribute and byte by byte, if it has
-- no NULL and exactly the bytes of the index's types.
pub get_key-get_bdb_key :
    (ts : List AttributeType) (k : Key) (max : Bool)
    → IsExact ts k
    → get_key ts (get_bdb_key ts k max) ≡ k
unfolding get_key get_bdb_key attribute_bytes
get_key-get_bdb_key [] [] max h = refl
get_key-get_bdb_key [] (x ∷ k) max h = absurd h
get_key-get_bdb_key (t ∷ ts) [] max h = absurd h
get_key-get_bdb_key (t ∷ ts) (none ∷ k) max h = absurd h
get_key-get_bdb_key (t ∷ ts) (some a ∷ k) max h = rw (
  memcpy-all (attribute_size t) a.bytes h.1,
  memcpy-append (attribute_size t) a.bytes (get_bdb_key ts k max) h.1,
  drop-append a.bytes (get_bdb_key ts k max) (attribute_size t) h.1,
  get_key-get_bdb_key ts k max h.2,
  ← h.0,
)

-- Encoding the key decoded from a buffer gives the buffer back, if it has as many bytes as the
-- attributes of the index together.
pub get_bdb_key-get_key :
    (ts : List AttributeType) (bytes : List ℕ) (max : Bool)
    → length bytes ≡ total_size ts
    → get_bdb_key ts (get_key ts bytes) max ≡ bytes
unfolding get_key get_bdb_key attribute_bytes
get_bdb_key-get_key [] [] max h = refl
get_bdb_key-get_key [] (x ∷ bytes) max h = absurd (omega arith)
get_bdb_key-get_key (t ∷ ts) bytes max h =
    rw
      (
        memcpy-all (attribute_size t) (memcpy (attribute_size t) bytes)
            (length-memcpy (attribute_size t) bytes),
        get_bdb_key-get_key ts (drop (attribute_size t) bytes) max
            (omega (arith, length-drop_le (attribute_size t) bytes)),
        memcpy,
      )
      (take-append-drop_le (attribute_size t) bytes (replicate (attribute_size t) 0) (omega arith))
