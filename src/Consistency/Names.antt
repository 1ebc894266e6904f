-- ===== src/Consistency/Names.antt =====
-- Predicates of the pointers in the map of index structures, and its insertions and deletions.
use mathlib.Core.Path.{subst}
use text.Mathlib.Text.{◌==◌ as str_eq}
use oxford_sigmod.Base.{
  ℕ, none, some, List, [], ◌∷◌, String, ◌≡◌, ◌≢◌, sym, ◌∙◌, arith, All, Bool-cases, inl, inr,
}
use oxford_sigmod.Manager.{lookup, insert, erase}
use oxford_sigmod.Consistency.Invariant.{Distinct}

-- A predicate of the pointers in a map.
abbrev pub AllPointers : (ℕ → Type 0) → List (String × ℕ) → Type 0
AllPointers P m = All (λ e. P e.1) m

pub All-map :
    {P Q : ℕ → Type 0}
    → ((q : ℕ) → P q → Q q)
    → (m : List (String × ℕ)) → AllPointers P m
    → AllPointers Q m
All-map f [] h = tt
All-map f (e ∷ m) h = (f e.1 h.0, All-map f m h.1)

pub All-insert :
    (P : ℕ → Type 0) (name : String) (p : ℕ) (m : List (String × ℕ))
    → P p
    → AllPointers P m
    → AllPointers P (insert name p m)
unfolding insert
All-insert P name p [] hp h = (hp, tt)
All-insert P name p ((k, q) ∷ m) hp h = elim (Bool-cases (str_eq k name)) [
  | inl same ↦ rw (same, insert) (hp, h.1)
  | inr other ↦ rw (other, insert) (h.0, All-insert P name p m hp h.1)
]

pub Distinct-insert :
    (name : String) (p : ℕ) (m : List (String × ℕ))
    → AllPointers (λ q. q ≢ p) m
    → Distinct m
    → Distinct (insert name p m)
unfolding insert
Distinct-insert name p [] fresh d = (tt, tt)
Distinct-insert name p ((k, q) ∷ m) fresh d = elim (Bool-cases (str_eq k name)) [
  | inl same ↦ rw (same, insert) (fresh.1, d.1)
  | inr other ↦
      rw (other, insert)
        (
          All-insert (λ x. x ≢ q) name p m (λ e. fresh.0 (sym e)) d.0,
          Distinct-insert name p m fresh.1 d.1,
        )
]

pub lookup-All :
    (P : ℕ → Type 0) (name : String) (p : ℕ) (m : List (String × ℕ))
    → lookup name m ≡ some p
    → AllPointers P m
    → P p
unfolding lookup
lookup-All P name p [] found h = absurd (none_ne_some found)
  where
    none_ne_some : none ≡ some p → ⊥
    none_ne_some e = cc e
lookup-All P name p ((k, q) ∷ m) found h = elim (Bool-cases (str_eq k name)) [
  | inl same ↦ subst P (ground (arith, same, found)) h.0
  | inr other ↦ lookup-All P name p m (ground (arith, other, found)) h.1
]

pub AllPointers-erase :
    (P : ℕ → Type 0) (name : String) (m : List (String × ℕ))
    → AllPointers P m
    → AllPointers P (erase name m)
unfolding erase
AllPointers-erase P name [] h = tt
AllPointers-erase P name ((k, q) ∷ m) h = elim (Bool-cases (str_eq k name)) [
  | inl same ↦ rw (same, erase) h.1
  | inr other ↦ rw (other, erase) (h.0, AllPointers-erase P name m h.1)
]

pub Distinct-erase : (name : String) (m : List (String × ℕ)) → Distinct m → Distinct (erase name m)
unfolding erase
Distinct-erase name [] d = tt
Distinct-erase name ((k, q) ∷ m) d = elim (Bool-cases (str_eq k name)) [
  | inl same ↦ rw (same, erase) d.1
  | inr other ↦
      rw (other, erase) (AllPointers-erase (λ x. x ≢ q) name m d.0, Distinct-erase name m d.1)
]

pub All-both :
    {P Q R : ℕ → Type 0}
    → ((q : ℕ) → P q → Q q → R q)
    → (m : List (String × ℕ)) → AllPointers P m
    → AllPointers Q m
    → AllPointers R m
All-both f [] h k = tt
All-both f (e ∷ m) h k = (f e.1 h.0 k.0, All-both f m h.1 k.1)

-- Pointers other than that of the name, after the name is erased.
pub Distinct-All-erase :
    {P Q : ℕ → Type 0} {p : ℕ}
    → ((q : ℕ) → q ≢ p → P q → Q q)
    → (name : String) (m : List (String × ℕ)) → lookup name m ≡ some p
    → AllPointers P m
    → Distinct m
    → AllPointers Q (erase name m)
unfolding erase lookup
Distinct-All-erase f name [] found h d = tt
Distinct-All-erase {P} {Q} {p} f name ((k, q) ∷ m) found h d = elim (Bool-cases (str_eq k name)) [
  | inl same ↦
      rw (same, erase)
        (All-both (λ x other hx. f x (λ e. other (e ∙ sym (ground (arith, same, found)))) hx) m d.0
          h.1)
  | inr other ↦
      let behind : lookup name m ≡ some p = ground (arith, other, found) in
      let apart : p ≢ q = lookup-All (λ x. x ≢ q) name p m behind d.0 in
      rw (other, erase) (f q (λ e. apart (sym e)) h.0, Distinct-All-erase f name m behind h.1 d.1)
]
