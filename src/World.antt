-- ===== src/World.antt =====
-- The state that the functions of example/ share, and the monad in which they run: the environment
-- of Berkeley DB, the index structures and index handles on the heap, and the map of the singleton
-- `IndexManager`, and the iterators. A pointer is a number; an object that was deleted is `none`.
use oxford_sigmod.Base.{ℕ, Option, none, some, List, Bool, String, ◌==◌, if◌then◌else◌}
use oxford_sigmod.Types.{Key, Record}
use oxford_sigmod.Bdb.{Bdb, Dbt, Reply, done, raise, Exception}
use oxford_sigmod.Structure.{IndexStructure}

-- `closed` and the pointers of class Index. Its `op_count_` is 0 from the constructor on, so `Close`
-- never waits for it.
pub record Index : Type 0 where
  pub db : Option ℕ
  pub name : String
  pub structure : Option ℕ
  pub closed : Bool
  pub iterators : List ℕ

-- The fields of class Iterator.
pub record Iterator : Type 0 where
  pub cvalue : Option Record
  pub key : Dbt
  pub value : Dbt
  pub max_key : Key
  pub min_key : Key
  pub index : ℕ
  pub cursor : Option ℕ
  pub closed : Bool
  pub end : Bool
  pub initialized : Bool

-- How a call ends: it returns, an exception leaves it, or it has no defined result (an assertion
-- fails, a dangling pointer is followed, or the fuel of a loop is used up).
pub data Outcome (A : Type 0) : Type 0 where
  returned : A → Outcome A
  threw : Exception → Outcome A
  stuck : Outcome A

pub record World (B : Bdb) : Type 0 where
  pub env : B.Env
  pub structures : ℕ → Option IndexStructure
  pub indices : List (String × ℕ)
  pub objects : ℕ → Option Index
  pub next_structure : ℕ
  pub next_object : ℕ
  pub iterators : ℕ → Option Iterator
  pub next_iterator : ℕ

abbrev pub M : Bdb → Type 0 → Type 0
M B A = World B → Outcome A × World B

abbrev pub update {ℓ} : {A : Type ℓ} → (ℕ → A) → ℕ → A → ℕ → A
update f p v q = if p == q then v else f q

module _ {B : Bdb} where
  infixl 5 ◌>>=◌ ◌>>◌
  abbrev pub ◌>>=◌ : {A C : Type 0} → M B A → (A → M B C) → M B C
  ◌>>=◌ m f w =
      let (o, w') = m w in
      elim o [ returned a ↦ f a w' | threw e ↦ (threw e, w') | stuck ↦ (stuck, w') ]

  abbrev pub ◌>>◌ : {C : Type 0} → M B (Unit {0}) → M B C → M B C
  m >> k = m >>= λ _. k

  abbrev pub pure : {A : Type 0} → A → M B A
  pure a w = (returned a, w)

  abbrev pub fail : {A : Type 0} → M B A
  fail w = (stuck, w)

  abbrev pub or_fail : {A : Type 0} → Option A → M B A
  or_fail none w = (stuck, w)
  or_fail (some a) w = (returned a, w)

  -- `try { m } catch (e) { handler e }`
  abbrev pub catching : {A : Type 0} → M B A → (Exception → M B A) → M B A
  catching m handler w =
      let (o, w') = m w in
      elim o [ returned a ↦ (returned a, w') | threw e ↦ handler e w' | stuck ↦ (stuck, w') ]

  abbrev pub throw : {A : Type 0} → Exception → M B A
  throw e w = (threw e, w)

  -- `last` runs when `m` has returned, and also when it has thrown: what `delete` and the end of a
  -- scope do with an object.
  abbrev pub finally : M B (Unit {0}) → M B (Unit {0}) → M B (Unit {0})
  finally m last = do
    catching m λ e. do last; throw e
    last

  abbrev pub when : Bool → M B (Unit {0}) → M B (Unit {0})
  when b m w = if b then m w else (returned tt, w)

  -- A call of Berkeley DB.
  abbrev pub bdb : {A : Type 0} → (B.Env → Reply A × B.Env) → M B A
  bdb call w =
      let (reply, env) = call w.env in
      let after : World B = record w { env = env } in
      elim reply [ done a ↦ (returned a, after) | raise e ↦ (threw e, after) ]

  abbrev pub destroy_db : ℕ → M B (Unit {0})
  destroy_db db w = (returned tt, record w { env = B.db_destroy db w.env })

  abbrev pub structure_at : ℕ → M B IndexStructure
  structure_at p w = or_fail (w.structures p) w

  abbrev pub set_structure : ℕ → Option IndexStructure → M B (Unit {0})
  set_structure p s w = (returned tt, record w { structures = update w.structures p s })

  abbrev pub object_at : ℕ → M B Index
  object_at h w = or_fail (w.objects h) w

  abbrev pub set_object : ℕ → Option Index → M B (Unit {0})
  set_object h i w = (returned tt, record w { objects = update w.objects h i })

  abbrev pub iterator_at : ℕ → M B Iterator
  iterator_at it w = or_fail (w.iterators it) w

  abbrev pub set_iterator : ℕ → Option Iterator → M B (Unit {0})
  set_iterator it i w = (returned tt, record w { iterators = update w.iterators it i })
