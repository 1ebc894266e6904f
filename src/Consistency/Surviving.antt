-- ===== src/Consistency/Surviving.antt =====
-- Calls that are not stuck while an index structure is on the heap, whatever Berkeley DB answers: a
-- do block of these has the program's do block as its first part (example/Index.cc).
use oxford_sigmod.Base.{ℕ, Bool, true, false, Option, some, ◌≡◌, arith}
use oxford_sigmod.Bdb.{Bdb, Reply}
use oxford_sigmod.Structure.{IndexStructure, start_transaction, end_transaction}
use oxford_sigmod.World
use oxford_sigmod.World.{World, Outcome, returned, M, update}
use oxford_sigmod.Manager
use oxford_sigmod.Manager.Laws.{IsThere}
use oxford_sigmod.Consistency.Endings.{Ends, Ends-bind, Ends-bdb, Ends-or_fail}

-- The call is not stuck if the structure at `p` is there, and then leaves it there.
abbrev pub Survives : {B : Bdb} → ℕ → {A : Type 0} → M B A → Type 0
Survives {B} p m = (w : World B) → IsThere w p → Ends (λ a w'. IsThere {B = B} w' p) (m w)

abbrev pub Safe : Bdb → ℕ → Type 0 → Type 0
Safe B p A = (m : M B A) × Survives {B = B} p m

module _ {B : Bdb} {p : ℕ} where
  infixl 5 ◌>>=◌ ◌>>◌
  abbrev pub ◌>>=◌ : {A C : Type 0} → Safe B p A → (A → Safe B p C) → Safe B p C
  ◌>>=◌ {A} {C} m f = (
    World.◌>>=◌ m.0 (λ a. (f a).0),
    λ w h.
        Ends-bind (λ a w'. IsThere {B = B} w' p) (λ a w'. IsThere {B = B} w' p) m.0 (λ a. (f a).0) w
          (m.1 w h) (λ a w' h'. (f a).1 w' h'),
  )

  abbrev pub ◌>>◌ : {C : Type 0} → Safe B p (Unit {0}) → Safe B p C → Safe B p C
  m >> k = m >>= λ _. k

  abbrev pub pure : {A : Type 0} → A → Safe B p A
  pure a = (World.pure a, λ w h. h)

  abbrev pub bdb : {A : Type 0} → (B.Env → Reply A × B.Env) → Safe B p A
  bdb call = (World.bdb call, λ w h. Ends-bdb (λ a w'. IsThere {B = B} w' p) call w (λ a e. h))

  -- A pointer that is not NULL.
  abbrev pub given : {A : Type 0} (o : Option A) (a : A) → o ≡ some a → Safe B p A
  given o a same = (World.or_fail o, λ w h. rw same h)

  pub Survives-cond :
      {A : Type 0} (b : Bool) (m n : M B A)
      → Survives {B = B} p m
      → Survives {B = B} p n
      → Survives {B = B} p (elim b as (λ _. M B A) [ true ↦ m | false ↦ n ])
  Survives-cond true m n hm hn = hm
  Survives-cond false m n hm hn = hn

  abbrev pub on_test : {A : Type 0} → (b : Bool) → Safe B p A → Safe B p A → Safe B p A
  on_test {A} b m n =
      (elim b as (λ _. M B A) [ true ↦ m.0 | false ↦ n.0 ], Survives-cond b m.0 n.0 m.1 n.1)

  abbrev pub structure_there : Safe B p IndexStructure
  structure_there = (
    World.structure_at p,
    λ w h. Ends-or_fail (λ a w'. IsThere {B = B} w' p) (w.structures p) h.0 w h.1 h,
  )

  pub set_there-Survives :
      (s : IndexStructure) → Survives {B = B} p (World.set_structure p (some s))
  set_there-Survives s w h = (s, ground arith)

  abbrev pub set_there : IndexStructure → Safe B p (Unit {0})
  set_there s = (World.set_structure p (some s), set_there-Survives s)

  pub start_transaction_at-Survives :
      (tx : ℕ) → Survives {B = B} p (Manager.start_transaction_at p tx)
  unfolding Manager.start_transaction_at
  start_transaction_at-Survives tx =
      (do
        s ← structure_there
        set_there (start_transaction tx s).1
        pure (start_transaction tx s).0).1

  pub end_transaction_at-Survives : (tx : ℕ) → Survives {B = B} p (Manager.end_transaction_at p tx)
  unfolding Manager.end_transaction_at
  end_transaction_at-Survives tx = (do s ← structure_there; set_there (end_transaction tx s)).1

  abbrev pub start_transaction_at : ℕ → Safe B p Bool
  start_transaction_at tx = (Manager.start_transaction_at p tx, start_transaction_at-Survives tx)

  abbrev pub end_transaction_at : ℕ → Safe B p (Unit {0})
  end_transaction_at tx = (Manager.end_transaction_at p tx, end_transaction_at-Survives tx)
