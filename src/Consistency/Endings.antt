-- ===== src/Consistency/Endings.antt =====
-- For each way in which the program composes its calls, why the composed call is not stuck
-- (example/Index.cc and example/BDBImpl.cc).
use oxford_sigmod.Base.{Option, some, ◌≡◌, refl}
use oxford_sigmod.Bdb.{Bdb, Exception, Reply, done, raise}
use oxford_sigmod.World
use oxford_sigmod.World.{World, Outcome, returned, threw, stuck, M, catching, update}

module _ {B : Bdb} where
  -- It is not stuck; if it returned, `Q` holds.
  abbrev pub Ends : {A : Type 0} → (A → World B → Type 0) → Outcome A × World B → Type 0
  Ends Q (returned a, w) = Q a w
  Ends Q (threw e, w) = Unit {0}
  Ends Q (stuck, w) = ⊥

  -- The call returns: no exception leaves it, and it is not stuck.
  abbrev pub Returns : {A : Type 0} → M B A → World B → Type 0
  Returns {A} m w = (a : A) × (w' : World B) × (m w ≡ (returned a, w'))

  bind_lem :
      {A C : Type 0} (Q : A → World B → Type 0) (R : C → World B → Type 0) (f : A → M B C)
      (r : Outcome A × World B)
      → Ends Q r
      → ((a : A) (w' : World B) → Q a w' → Ends R (f a w'))
      → Ends R ((World.◌>>=◌ (λ (v : World B). r) f) r.1)
  bind_lem Q R f (returned a, w) h k = k a w h
  bind_lem Q R f (threw e, w) h k = tt
  bind_lem Q R f (stuck, w) h k = absurd h

  pub Ends-bind :
      {A C : Type 0} (Q : A → World B → Type 0) (R : C → World B → Type 0) (m : M B A)
      (f : A → M B C) (w : World B)
      → Ends Q (m w)
      → ((a : A) (w' : World B) → Q a w' → Ends R (f a w'))
      → Ends R ((World.◌>>=◌ m f) w)
  Ends-bind Q R m f w h k = bind_lem Q R f (m w) h k

  -- A pointer that is not NULL.
  pub Ends-or_fail :
      {A : Type 0} (Q : A → World B → Type 0) (o : Option A) (a : A) (w : World B)
      → o ≡ some a
      → Q a w
      → Ends Q (World.or_fail o w)
  Ends-or_fail Q o a w same h = rw same h

  bdb_lem :
      {A : Type 0} (Q : A → World B → Type 0) (r : Reply A × B.Env) (w : World B)
      → ((a : A) (e : B.Env) → Q a (record w { env = e }))
      → Ends Q (World.bdb (λ e. r) w)
  bdb_lem Q (done a, e) w k = k a e
  bdb_lem Q (raise x, e) w k = tt

  pub Ends-bdb :
      {A : Type 0} (Q : A → World B → Type 0) (call : B.Env → Reply A × B.Env) (w : World B)
      → ((a : A) (e : B.Env) → Q a (record w { env = e }))
      → Ends Q (World.bdb call w)
  Ends-bdb Q call w k = bdb_lem Q (call w.env) w k

  caught_lem :
      {A : Type 0} (Q : A → World B → Type 0) (handler : Exception → M B A)
      (r : Outcome A × World B)
      → Ends Q r
      → ((e : Exception) (w' : World B) → Returns (handler e) w')
      → Returns (catching (λ (v : World B). r) handler) r.1
  caught_lem Q handler (returned a, w) h k = (a, w, refl)
  caught_lem Q handler (threw e, w) h k = k e w
  caught_lem Q handler (stuck, w) h k = absurd h

  -- A call whose exceptions are caught by what returns, returns.
  pub Returns-catching :
      {A : Type 0} (Q : A → World B → Type 0) (m : M B A) (handler : Exception → M B A)
      (w : World B)
      → Ends Q (m w)
      → ((e : Exception) (w' : World B) → Returns (handler e) w')
      → Returns (catching m handler) w
  Returns-catching Q m handler w h k = caught_lem Q handler (m w) h k
