-- ===== src/Consistency/Rules.antt =====
-- For each way in which the program composes its calls, a rule for what the composed call ensures and
-- keeps (example/Index.cc, example/Iterator.cc and example/BDBImpl.cc).
use oxford_sigmod.Base.{ℕ, Bool, true, false, Option, none, some, ◌≡◌, refl}
use oxford_sigmod.Bdb.{Bdb, Exception, Reply, done, raise}
use oxford_sigmod.Structure.{IndexStructure}
use oxford_sigmod.World.{
  World, Index, Iterator, pure, iterator_at, set_iterator, Outcome, returned, threw, stuck, M,
  ◌>>=◌, catching, bdb, structure_at, object_at, or_fail,
}
use oxford_sigmod.Consistency.Invariant.{Consistent, Ensures, Keeps}

module _ {B : Bdb} where
  module _ {A C : Type 0} (Q : A → World B → Type 0) (R : C → World B → Type 0) where
    continue_lem :
        (f : A → M B C) (r : Outcome A × World B)
        → Ensures Q r
        → ((a : A) (w' : World B) → Consistent w' → Q a w' → Ensures R (f a w'))
        → Ensures R (((λ (v : World B). r) >>= f) r.1)
    continue_lem f (returned a, w) h k = k a w h.0 h.1
    continue_lem f (threw e, w) h k = h
    continue_lem f (stuck, w) h k = h

    -- What follows may use what the first call ensures.
    pub Ensures-bind :
        (m : M B A) (f : A → M B C) (w : World B)
        → Ensures Q (m w)
        → ((a : A) (w' : World B) → Consistent w' → Q a w' → Ensures R (f a w'))
        → Ensures R ((m >>= f) w)
    Ensures-bind m f w h k = continue_lem f (m w) h k

  pub Ensures-map :
      {A : Type 0} (Q R : A → World B → Type 0) (r : Outcome A × World B)
      → Ensures Q r
      → ((a : A) (w' : World B) → Q a w' → R a w')
      → Ensures R r
  Ensures-map Q R (returned a, w) h k = (h.0, k a w h.1)
  Ensures-map Q R (threw e, w) h k = h
  Ensures-map Q R (stuck, w) h k = h

  module _ {A : Type 0} (Q : A → World B → Type 0) where
    handle_lem :
        (handler : Exception → M B A) (r : Outcome A × World B)
        → Ensures Q r
        → ((e : Exception) (w' : World B) → Consistent w' → Ensures Q (handler e w'))
        → Ensures Q (catching (λ (v : World B). r) handler r.1)
    handle_lem handler (returned a, w) h k = h
    handle_lem handler (threw e, w) h k = k e w h
    handle_lem handler (stuck, w) h k = h

    pub Ensures-catching :
        (m : M B A) (handler : Exception → M B A) (w : World B)
        → Ensures Q (m w)
        → ((e : Exception) (w' : World B) → Consistent w' → Ensures Q (handler e w'))
        → Ensures Q (catching m handler w)
    Ensures-catching m handler w h k = handle_lem handler (m w) h k

    reply_lem :
        (r : Reply A × B.Env) (w : World B)
        → Consistent w
        → ((a : A) (e : B.Env) → Q a (record w { env = e }))
        → Ensures Q (bdb (λ e. r) w)
    reply_lem (done a, e) w h k = (h, k a e)
    reply_lem (raise x, e) w h k = h

    -- Berkeley DB changes nothing but its own environment.
    pub Ensures-bdb :
        (call : B.Env → Reply A × B.Env) (w : World B)
        → Consistent w
        → ((a : A) (e : B.Env) → Q a (record w { env = e }))
        → Ensures Q (bdb call w)
    Ensures-bdb call w h k = reply_lem (call w.env) w h k

    or_fail_lem :
        (o : Option A) (w : World B)
        → Consistent w
        → ((a : A) → o ≡ some a → Q a w)
        → Ensures Q (or_fail o w)
    or_fail_lem none w h k = h
    or_fail_lem (some a) w h k = (h, k a refl)

    pub Ensures-or_fail :
        (o : Option A) (w : World B)
        → Consistent w
        → ((a : A) → o ≡ some a → Q a w)
        → Ensures Q (or_fail o w)
    Ensures-or_fail o w h k = or_fail_lem o w h k

  -- Rules for the ways in which the code branches and reads the heap.
  module _ {A C : Type 0} (R : C → World B → Type 0) where
    fail_bind_lem :
        (o : Option A) (f : A → M B C) (w : World B)
        → Consistent w
        → ((a : A) → o ≡ some a → Ensures R (f a w))
        → Ensures R ((or_fail o >>= f) w)
    fail_bind_lem none f w c k = c
    fail_bind_lem (some a) f w c k = k a refl

    pub Ensures-or_fail_bind :
        (o : Option A) (f : A → M B C) (w : World B)
        → Consistent w
        → ((a : A) → o ≡ some a → Ensures R (f a w))
        → Ensures R ((or_fail o >>= f) w)
    Ensures-or_fail_bind o f w c k = fail_bind_lem o f w c k

    pub Ensures-option :
        (o : Option A) (m : M B C) (f : A → M B C) (w : World B)
        → (o ≡ none → Ensures R (m w))
        → ((a : A) → o ≡ some a → Ensures R (f a w))
        → Ensures R ((elim o as (λ _. M B C) [ none ↦ m | some a ↦ f a ]) w)
    Ensures-option none m f w k l = k refl
    Ensures-option (some a) m f w k l = l a refl

  module _ {C : Type 0} (R : C → World B → Type 0) where
    pub Ensures-object_at :
        (h : ℕ) (f : Index → M B C) (w : World B)
        → Consistent w
        → ((i : Index) → w.objects h ≡ some i → Ensures R (f i w))
        → Ensures R ((object_at h >>= f) w)
    Ensures-object_at h f w c k = Ensures-or_fail_bind R (w.objects h) f w c k

    pub Ensures-structure_at :
        (p : ℕ) (f : IndexStructure → M B C) (w : World B)
        → Consistent w
        → ((s : IndexStructure) → w.structures p ≡ some s → Ensures R (f s w))
        → Ensures R ((structure_at p >>= f) w)
    Ensures-structure_at p f w c k = Ensures-or_fail_bind R (w.structures p) f w c k

    pub Ensures-cond :
        (b : Bool) (m n : M B C) (w : World B)
        → (b ≡ true → Ensures R (m w))
        → (b ≡ false → Ensures R (n w))
        → Ensures R ((elim b as (λ _. M B C) [ true ↦ m | false ↦ n ]) w)
    Ensures-cond true m n w k l = k refl
    Ensures-cond false m n w k l = l refl

  -- The same for calls that use no more than consistency.
  pub Keeps-bind :
      {A C : Type 0} (m : M B A) (f : A → M B C)
      → Keeps {B = B} m
      → ((a : A) → Keeps {B = B} (f a))
      → Keeps {B = B} (m >>= f)
  Keeps-bind m f km kf w h = Ensures-bind _ _ m f w (km w h) (λ a w' h' q. kf a w' h')

  pub Keeps-catching :
      {A : Type 0} (m : M B A) (handler : Exception → M B A)
      → Keeps {B = B} m
      → ((e : Exception) → Keeps {B = B} (handler e))
      → Keeps {B = B} (catching m handler)
  Keeps-catching m handler km kh w h =
      Ensures-catching _ m handler w (km w h) (λ e w' h'. kh e w' h')

  pub Keeps-bdb : {A : Type 0} (call : B.Env → Reply A × B.Env) → Keeps {B = B} (bdb call)
  Keeps-bdb call w h = Ensures-bdb _ call w h (λ a e. tt)

  pub Keeps-or_fail : {A : Type 0} (o : Option A) → Keeps {B = B} {A = A} (or_fail o)
  Keeps-or_fail o w h = Ensures-or_fail _ o w h (λ a e. tt)

  pub Keeps-pure : {A : Type 0} (a : A) → Keeps {B = B} {A = A} (pure a)
  Keeps-pure a w h = (h, tt)

  pub Keeps-object_at : (h : ℕ) → Keeps {B = B} (object_at h)
  Keeps-object_at h w c = Ensures-or_fail _ (w.objects h) w c (λ a e. tt)

  pub Keeps-structure_at : (p : ℕ) → Keeps {B = B} (structure_at p)
  Keeps-structure_at p w c = Ensures-or_fail _ (w.structures p) w c (λ a e. tt)

  pub Keeps-iterator_at : (it : ℕ) → Keeps {B = B} (iterator_at it)
  Keeps-iterator_at it w c = Ensures-or_fail _ (w.iterators it) w c (λ a e. tt)

  pub Keeps-set_iterator : (it : ℕ) (i : Option Iterator) → Keeps {B = B} (set_iterator it i)
  Keeps-set_iterator it i w c = (c, tt)

  pub Keeps-cond :
      {A : Type 0} (b : Bool) (m n : M B A)
      → Keeps {B = B} m
      → Keeps {B = B} n
      → Keeps {B = B} {A = A} (elim b as (λ _. M B A) [ true ↦ m | false ↦ n ])
  Keeps-cond true m n km kn = km
  Keeps-cond false m n km kn = kn

  pub Keeps-option :
      {A C : Type 0} (o : Option A) (m : M B C) (f : A → M B C)
      → Keeps {B = B} m
      → ((a : A) → Keeps {B = B} (f a))
      → Keeps {B = B} {A = C} (elim o as (λ _. M B C) [ none ↦ m | some a ↦ f a ])
  Keeps-option none m f km kf = km
  Keeps-option (some a) m f km kf = kf a
