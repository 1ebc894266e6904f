-- ===== src/Api/Lifecycle.antt =====
-- CreateIndex and OpenIndex, when Berkeley DB accepts their calls (example/BDBImpl.cc and
-- example/Index.cc).
use text.Mathlib.TextEquality.{eq_iff}
use oxford_sigmod.Base.{
  ℕ, suc, Bool, true, false, Option, none, some, List, [], ◌∷◌, String, ◌≡◌, refl, arith, take,
  ◌==◌, ltb, length,
}
use oxford_sigmod.Base.Sets.{insert}
use oxford_sigmod.Types.{k_ok, AttributeType}
use oxford_sigmod.Bdb.{Bdb, done}
use oxford_sigmod.Structure.{IndexStructure, new_structure, register_handle}
use oxford_sigmod.World.{World, Index, returned, update}
use oxford_sigmod.Manager
use oxford_sigmod.Manager.{lookup, find, allocate_structure, insert_structure}
use oxford_sigmod.Manager.Laws.{lookup-insert}
use oxford_sigmod.Index as Handle
use oxford_sigmod.Index.{allocate_index, open_found}
use oxford_sigmod.Api.{given_name, create_named, create_index, open_index}
use oxford_sigmod.Api.RangeQuery.{Readable}

-- A handle while OpenIndex makes it.
abbrev handle_with : String → Option ℕ → Option ℕ → Bool → Index
handle_with name db p closed = record {
  db = db;
  name = name;
  structure = p;
  closed = closed;
  iterators = [];
}

-- The objects after a handle was made at `h`, in four writes.
abbrev made_at : ℕ → String → ℕ → ℕ → (ℕ → Option Index) → ℕ → Option Index
made_at h name db p objects =
    update
      (update
        (update (update objects h (some (handle_with name none none true))) h
          (some (handle_with name (some db) none true)))
        h (some (handle_with name (some db) (some p) true)))
      h (some (handle_with name (some db) (some p) false))

-- The structure of an index that was created and opened once.
abbrev pub created : List AttributeType → ℕ → ℕ → IndexStructure
created types size h = record {
  type = types;
  size = size;
  read_only = false;
  handles = h ∷ [];
  transactions = [];
}

module _ {B : Bdb} where
  -- The world after an index was created under the name.
  abbrev after_create : World B → String → List AttributeType → B.Env → World B
  unfolding new_structure
  after_create w name types e' = record w {
    env = e';
    structures = update w.structures w.next_structure (some (new_structure types));
    indices = Manager.insert name w.next_structure w.indices;
    next_structure = suc w.next_structure;
  }

  create_index-runs :
      (w : World B) (name : String) (n : ℕ) (types : List AttributeType) (db : ℕ) (e1 e2 : B.Env)
      → given_name (some name) ≡ some name
      → (n == 0) ≡ false
      → B.db_create w.env ≡ (done db, e1)
      → ltb (length types) n ≡ false
      → B.db_open db name true e1 ≡ (done tt, e2)
      → create_index (some name) n (some types) w
        ≡ (returned k_ok, after_create w name (take n types) (B.db_destroy db e2))
  unfolding create_index create_named allocate_structure insert_structure
  create_index-runs w name n types db e1 e2 given some_columns made enough opened =
      ground (arith, given, some_columns, made, enough, opened)

  abbrev after_open : World B → String → ℕ → ℕ → IndexStructure → B.Env → World B
  after_open w name db p s e' = record w {
    env = e';
    structures = update w.structures p (some s);
    objects = made_at w.next_object name db p w.objects;
    next_object = suc w.next_object;
  }

  open_index-runs :
      (w : World B) (name : String) (old : Option ℕ) (p db : ℕ) (s : IndexStructure) (e1 e2 : B.Env)
      → given_name (some name) ≡ some name
      → lookup name w.indices ≡ some p
      → w.structures p ≡ some s
      → B.db_create w.env ≡ (done db, e1)
      → B.db_open db name false e1 ≡ (done tt, e2)
      → open_index (some name) old w ≡ (
        returned (k_ok, some w.next_object),
        after_open w name db p (register_handle w.next_object s) e2,
      )
  unfolding open_index allocate_index Handle.open_index open_found find
  open_index-runs w name old p db s e1 e2 given named found made opened =
      ground (arith, given, named, found, made, opened)

  Readable-after_open :
      (w : World B) (name : String) (p db : ℕ) (s : IndexStructure) (e' : B.Env)
      → Readable (after_open w name db p s e') w.next_object p db s
  Readable-after_open w name p db s e' = record {
    object = handle_with name (some db) (some p) false;
    at_object = ground arith;
    is_open = refl;
    at_db = refl;
    at_structure = refl;
    found = ground arith;
  }

  -- CreateIndex and then OpenIndex on the same name return kOk, and OpenIndex an open handle on a
  -- database and on the structure of the index. The name is not empty, the number of columns is not
  -- 0 and not greater than that of the types, and Berkeley DB creates and opens the two databases.
  pub create_index-opens :
      (w : World B) (name : String) (n : ℕ) (types : List AttributeType) (old : Option ℕ)
      (db db' : ℕ) (e1 e2 e3 e4 : B.Env)
      → given_name (some name) ≡ some name
      → (n == 0) ≡ false
      → ltb (length types) n ≡ false
      → B.db_create w.env ≡ (done db, e1)
      → B.db_open db name true e1 ≡ (done tt, e2)
      → B.db_create (B.db_destroy db e2) ≡ (done db', e3)
      → B.db_open db' name false e3 ≡ (done tt, e4)
      → (w1 : World B) × (w2 : World B) × (h : ℕ) × (p : ℕ) × (size : ℕ) × (create_index
            (some name)
            n
            (some types)
            w
          ≡ (returned k_ok, w1))
        × (open_index (some name) old w1 ≡ (returned (k_ok, some h), w2))
        × Readable w2 h p db' (created (take n types) size h)
        × (lookup name w2.indices ≡ some p)
        × (w2.env ≡ e4)
  unfolding register_handle new_structure insert
  create_index-opens w name n types old db db' e1 e2 e3 e4 given some_columns enough made opened
        made' opened' =
      let p : ℕ = w.next_structure in
      let h : ℕ = w.next_object in
      let w1 : World B = after_create w name (take n types) (B.db_destroy db e2) in
      let s : IndexStructure = register_handle h (new_structure (take n types)) in
      let named : lookup name w1.indices ≡ some p =
        ground (arith, lookup-insert name name p w.indices, eq_iff name name) in
      (
        w1,
        after_open w1 name db' p s e4,
        h,
        p,
        s.size,
        create_index-runs w name n types db e1 e2 given some_columns made enough opened,
        open_index-runs w1 name old p db' (new_structure (take n types)) e3 e4 given named
            (ground arith) made' opened',
        Readable-after_open w1 name p db' s e4,
        named,
        refl,
      )
