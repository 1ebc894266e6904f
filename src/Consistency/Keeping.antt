-- ===== src/Consistency/Keeping.antt =====
-- Calls together with the proof that they keep the heap consistent, built in the way in which the
-- program builds its calls: a do block of these has the program's do block as its first part.
use oxford_sigmod.Base.{ℕ, Bool, true, false, Option, none, some}
use oxford_sigmod.Bdb.{Bdb, Exception, Reply}
use oxford_sigmod.Structure.{IndexStructure}
use oxford_sigmod.World
use oxford_sigmod.World.{World, Index, Iterator, M}
use oxford_sigmod.Consistency.Invariant.{Keeps}
use oxford_sigmod.Consistency.Rules.{
  Keeps-bind, Keeps-catching, Keeps-bdb, Keeps-or_fail, Keeps-pure, Keeps-object_at,
  Keeps-structure_at, Keeps-iterator_at, Keeps-set_iterator, Keeps-cond, Keeps-option,
}

abbrev pub Kept : Bdb → Type 0 → Type 0
Kept B A = (m : M B A) × Keeps m

module _ {B : Bdb} where
  infixl 5 ◌>>=◌ ◌>>◌
  abbrev pub ◌>>=◌ : {A C : Type 0} → Kept B A → (A → Kept B C) → Kept B C
  ◌>>=◌ {A} {C} m f =
      (World.◌>>=◌ m.0 (λ a. (f a).0), Keeps-bind m.0 (λ a. (f a).0) m.1 (λ a. (f a).1))

  abbrev pub ◌>>◌ : {C : Type 0} → Kept B (Unit {0}) → Kept B C → Kept B C
  m >> k = m >>= λ _. k

  abbrev pub pure : {A : Type 0} → A → Kept B A
  pure a = (World.pure a, Keeps-pure a)

  abbrev pub or_fail : {A : Type 0} → Option A → Kept B A
  or_fail o = (World.or_fail o, Keeps-or_fail o)

  abbrev pub bdb : {A : Type 0} → (B.Env → Reply A × B.Env) → Kept B A
  bdb call = (World.bdb call, Keeps-bdb call)

  abbrev pub catching : {A : Type 0} → Kept B A → (Exception → Kept B A) → Kept B A
  catching m handler = (
    World.catching m.0 (λ e. (handler e).0),
    Keeps-catching m.0 (λ e. (handler e).0) m.1 (λ e. (handler e).1),
  )

  abbrev pub fail : {A : Type 0} → Kept B A
  fail {A} = (World.fail, λ w c. c)

  abbrev pub throw : {A : Type 0} → Exception → Kept B A
  throw {A} e = (World.throw e, λ w c. c)

  abbrev pub finally : Kept B (Unit {0}) → Kept B (Unit {0}) → Kept B (Unit {0})
  finally m last = do
    catching m λ e. do last; throw e
    last

  abbrev pub destroy_db : ℕ → Kept B (Unit {0})
  destroy_db db = (World.destroy_db db, λ w c. (c, tt))

  abbrev pub structure_at : ℕ → Kept B IndexStructure
  structure_at p = (World.structure_at p, Keeps-structure_at p)

  abbrev pub object_at : ℕ → Kept B Index
  object_at h = (World.object_at h, Keeps-object_at h)

  abbrev pub iterator_at : ℕ → Kept B Iterator
  iterator_at it = (World.iterator_at it, Keeps-iterator_at it)

  abbrev pub set_iterator : ℕ → Option Iterator → Kept B (Unit {0})
  set_iterator it i = (World.set_iterator it i, Keeps-set_iterator it i)

  abbrev pub on_test : {A : Type 0} → Bool → Kept B A → Kept B A → Kept B A
  on_test {A} b m n =
      (elim b as (λ _. M B A) [ true ↦ m.0 | false ↦ n.0 ], Keeps-cond b m.0 n.0 m.1 n.1)

  abbrev pub on_option : {A C : Type 0} → Option A → Kept B C → (A → Kept B C) → Kept B C
  on_option {A} {C} o m f = (
    elim o as (λ _. M B C) [ none ↦ m.0 | some a ↦ (f a).0 ],
    Keeps-option o m.0 (λ a. (f a).0) m.1 (λ a. (f a).1),
  )
