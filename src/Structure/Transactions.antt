-- ===== src/Structure/Transactions.antt =====
-- Deletion is safe: the protocol of `start_transaction`, `end_transaction` and `MakeReadOnly`
-- (example/Index.cc), for any interleaving of calls, each of which holds the mutex.
use mathlib.Core.Path.{subst}
use oxford_sigmod.Base.{
  sym, ℕ, Bool, true, false, ◌≡◌, ◌≢◌, ap, refl, List, [], ◌∷◌, arith, length, ltb, Bool-cases, inl,
  inr,
}
use oxford_sigmod.Base.Sets.{insert, erase, member, member-insert, member-erase}
use oxford_sigmod.Types.{AttributeType}
use oxford_sigmod.Structure.{
  IndexStructure, new_structure, start_transaction, end_transaction, make_read_only,
  register_handle, unregister_handle,
}

-- One call on a structure, by any thread.
pub data Call : Type 0 where
  start stop register unregister : ℕ → Call
  freeze : Call

unfoldable pub step : IndexStructure → Call → IndexStructure
unfolding start_transaction end_transaction make_read_only register_handle unregister_handle
step s (start tx) = (start_transaction tx s).1
step s (stop tx) = end_transaction tx s
step s freeze = (make_read_only s).1
step s (register h) = register_handle h s
step s (unregister h) = unregister_handle h s

unfoldable pub run : IndexStructure → List Call → IndexStructure
unfolding step
run s [] = s
run s (c ∷ cs) = run (step s c) cs

-- A read-only index has no open transaction.
abbrev pub IsSafe : IndexStructure → Type 0
IsSafe s = s.read_only ≡ true → s.transactions ≡ []

no_elements : (xs : List ℕ) → ltb 0 (length xs) ≡ false → xs ≡ []
no_elements [] h = refl
no_elements (x ∷ xs) h = ground arith

pub make_read_only-IsSafe : (s : IndexStructure) → IsSafe s → IsSafe (make_read_only s).1
unfolding make_read_only
make_read_only-IsSafe s h = elim (Bool-cases (ltb 0 (length s.transactions))) [
  | inl open_ones ↦ rw (open_ones, make_read_only) h
  | inr none_open ↦ rw (none_open, make_read_only) (λ e. no_elements s.transactions none_open)
]

pub start_transaction-frozen :
    (tx : ℕ) (s : IndexStructure) → s.read_only ≡ true → start_transaction tx s ≡ (false, s)
unfolding start_transaction
start_transaction-frozen tx s h = ground arith

pub start_transaction-writable :
    (tx : ℕ) (s : IndexStructure)
    → s.read_only ≡ false
    → start_transaction tx s ≡ (true, record s { transactions = insert tx s.transactions })
unfolding start_transaction
start_transaction-writable tx s h = ground arith

pub start_transaction-IsSafe :
    (tx : ℕ) (s : IndexStructure) → IsSafe s → IsSafe (start_transaction tx s).1
start_transaction-IsSafe tx s h = elim (Bool-cases s.read_only) [
  | inl frozen ↦ rw (start_transaction-frozen tx s frozen) h
  | inr writable ↦ rw (start_transaction-writable tx s writable) (λ e. cc (e, writable))
]

step-IsSafe : (s : IndexStructure) (c : Call) → IsSafe s → IsSafe (step s c)
unfolding step
step-IsSafe s (start tx) h = start_transaction-IsSafe tx s h
step-IsSafe s (stop tx) h = λ e. ap (erase tx) (h e)
step-IsSafe s freeze h = make_read_only-IsSafe s h
step-IsSafe s (register x) h = h
step-IsSafe s (unregister x) h = h

run_from-IsSafe : (s : IndexStructure) (cs : List Call) → IsSafe s → IsSafe (run s cs)
unfolding run
run_from-IsSafe s [] h = h
run_from-IsSafe s (c ∷ cs) h = run_from-IsSafe (step s c) cs (step-IsSafe s c h)

-- From a new structure on, whatever calls are made in whatever order: while the index is read-only,
-- no transaction is registered as having written to it.
pub run-IsSafe :
    (types : List AttributeType) (cs : List Call)
    → (run (new_structure types) cs).read_only ≡ true
    → (run (new_structure types) cs).transactions ≡ []
unfolding new_structure
run-IsSafe types cs h = run_from-IsSafe (new_structure types) cs (λ e. refl) h

abbrev IsFrozen : IndexStructure → Type 0
IsFrozen s = (s.read_only ≡ true) × (s.transactions ≡ [])

step-IsFrozen : (s : IndexStructure) (c : Call) → IsFrozen s → IsFrozen (step s c)
unfolding step
step-IsFrozen s (start tx) h =
    subst (λ (p : Bool × IndexStructure). IsFrozen p.1) (sym (start_transaction-frozen tx s h.0)) h
step-IsFrozen s (stop tx) h = (h.0, ap (erase tx) h.1)
step-IsFrozen s freeze h = ground arith
step-IsFrozen s (register x) h = h
step-IsFrozen s (unregister x) h = h

run-IsFrozen : (s : IndexStructure) (cs : List Call) → IsFrozen s → IsFrozen (run s cs)
unfolding run
run-IsFrozen s [] h = h
run-IsFrozen s (c ∷ cs) h = run-IsFrozen (step s c) cs (step-IsFrozen s c h)

make_read_only-IsFrozen :
    (s : IndexStructure) → (make_read_only s).0 ≡ true → IsFrozen (make_read_only s).1
unfolding make_read_only
make_read_only-IsFrozen s h = elim (Bool-cases (ltb 0 (length s.transactions))) [
  | inl open_ones ↦ absurd (refused open_ones)
  | inr none_open ↦ rw none_open (refl, no_elements s.transactions none_open)
]
  where
    refused : ltb 0 (length s.transactions) ≡ true → ⊥
    refused e = ground arith

-- Once `MakeReadOnly` has succeeded, every later `start_transaction` is refused and no transaction is
-- registered, whatever calls are made in between.
pub frozen_refuses :
    (s : IndexStructure) (cs : List Call) (tx : ℕ)
    → (make_read_only s).0 ≡ true
    → let t = run (make_read_only s).1 cs in
      (start_transaction tx t ≡ (false, t)) × (t.transactions ≡ [])
frozen_refuses s cs tx h =
    let frozen : IsFrozen (run (make_read_only s).1 cs) =
      run-IsFrozen (make_read_only s).1 cs (make_read_only-IsFrozen s h) in
    (start_transaction-frozen tx (run (make_read_only s).1 cs) frozen.0, frozen.1)

abbrev Keeps : ℕ → List Call → Type 0
Keeps tx [] = Unit {0}
Keeps tx (c ∷ cs) = (c ≢ stop tx) × Keeps tx cs

abbrev IsHeld : ℕ → IndexStructure → Type 0
IsHeld tx s = (s.read_only ≡ false) × (member tx s.transactions ≡ true)

pub make_read_only-held :
    (tx : ℕ) (s : IndexStructure) → member tx s.transactions ≡ true → make_read_only s ≡ (false, s)
unfolding make_read_only
make_read_only-held tx s h = rw (some_elements s.transactions h)
  where
    some_elements : (xs : List ℕ) → member tx xs ≡ true → ltb 0 (length xs) ≡ true
    some_elements [] e = cc
    some_elements (x ∷ xs) e = ground arith

step-IsHeld :
    (tx : ℕ) (s : IndexStructure) (c : Call) → c ≢ stop tx → IsHeld tx s → IsHeld tx (step s c)
unfolding step
step-IsHeld tx s (start x) ne h =
    subst (λ (p : Bool × IndexStructure). IsHeld tx p.1) (sym (start_transaction-writable x s h.0))
      (h.0, ground (arith, member-insert tx x s.transactions))
step-IsHeld tx s (stop x) ne h = (h.0, ground (arith, member-erase tx x s.transactions, different))
  where
    different : x ≢ tx
    different e = ne (ap stop e)
step-IsHeld tx s freeze ne h =
    subst (λ (p : Bool × IndexStructure). IsHeld tx p.1) (sym (make_read_only-held tx s h.1)) h
step-IsHeld tx s (register x) ne h = h
step-IsHeld tx s (unregister x) ne h = h

run-IsHeld :
    (tx : ℕ) (s : IndexStructure) (cs : List Call)
    → Keeps tx cs
    → IsHeld tx s
    → IsHeld tx (run s cs)
unfolding run
run-IsHeld tx s [] k h = h
run-IsHeld tx s (c ∷ cs) k h = run-IsHeld tx (step s c) cs k.1 (step-IsHeld tx s c k.0 h)

-- Once a transaction has begun to write to an index that is not read-only, and as long as it does
-- not end, `MakeReadOnly` returns false and changes nothing, and the transaction stays
-- registered, whatever other calls are made in between.
pub make_read_only_refused :
    (s : IndexStructure) (tx : ℕ) (cs : List Call)
    → s.read_only ≡ false
    → Keeps tx cs
    → let t = run (step s (start tx)) cs in
      (make_read_only t ≡ (false, t)) × (member tx t.transactions ≡ true)
unfolding step
make_read_only_refused s tx cs h k =
    let held : IsHeld tx (run (step s (start tx)) cs) = run-IsHeld tx (step s (start tx)) cs k (
      subst (λ (p : Bool × IndexStructure). IsHeld tx p.1) (sym (start_transaction-writable tx s h))
        (h, ground (arith, member-insert tx tx s.transactions))) in
    (make_read_only-held tx (run (step s (start tx)) cs) held.1, held.1)
