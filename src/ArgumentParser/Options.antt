-- ===== src/ArgumentParser/Options.antt =====
-- What the parser makes of a command line (common/argument_parser.cc).
use text.Mathlib.Text.{◌==◌ as str_eq}
use text.Mathlib.TextEquality.{eq_iff}
use oxford_sigmod.Base.{
  ℕ, zero, suc, ◌<◌, Bool, true, false, none, some, List, [], ◌∷◌, ◌++◌, ◌≡◌, ◌&&◌, ◌⊎◌, ◌==◌,
  Bool-cases, Option-cases, inl, inr, refl, arith, String, length, if◌then◌else◌, append_assoc,
  append-nil, ap, ◌∙◌,
}
use oxford_sigmod.ArgumentParser.{
  ArgumentParser, add_value, change, add_argument, add_alternatives, get_argument, parse_options,
  parse_args, with_prog, with_help, finish, help_string, is_set,
}

read_values : ℕ → List String → ArgumentParser → ArgumentParser
unfolding add_value
read_values a [] p = p
read_values a (v ∷ vs) p = read_values a vs (change a (add_value v) p)

parse_options-read_values :
    (a : ℕ) (vs rest : List String) (p : ArgumentParser)
    → parse_options (length vs) a (vs ++ rest) p ≡ parse_options 0 a rest (read_values a vs p)
unfolding parse_options read_values
parse_options-read_values a [] rest p = refl
parse_options-read_values a (v ∷ vs) rest p =
    parse_options-read_values a vs rest (change a (add_value v) p)

read_values-arguments :
    (a : ℕ) (vs : List String) (p : ArgumentParser) → (read_values a vs p).arguments ≡ p.arguments
unfolding read_values
read_values-arguments a [] p = refl
read_values-arguments a (v ∷ vs) p = read_values-arguments a vs (change a (add_value v) p)

read_values-objects :
    (a : ℕ) (vs : List String) (p : ArgumentParser) (c : ℕ)
    → (read_values a vs p).objects c ≡ (
        if a == c
        then record (p.objects a) { values = (p.objects a).values ++ vs }
        else p.objects c)
unfolding read_values add_value
read_values-objects a [] p c = elim (Bool-cases (a == c)) [
  | inl e ↦ ground (arith, e, append-nil (p.objects a).values)
  | inr e ↦ ground (arith, e)
]
read_values-objects a (v ∷ vs) p c = elim (Bool-cases (a == c)) [
  | inl e ↦ ground (
    arith,
    e,
    read_values-objects a vs (change a (add_value v) p) c,
    append_assoc (p.objects a).values (v ∷ []) vs,
  )
  | inr e ↦ ground (arith, e, read_values-objects a vs (change a (add_value v) p) c)
]

set_and_read :
    (b : ℕ) (vs : List String) (p : ArgumentParser) (c : ℕ)
    → (read_values b vs (change b (λ o. record o { set = true }) p)).objects c ≡ (
        if b == c
        then record (p.objects b) { set = true; values = (p.objects b).values ++ vs }
        else p.objects c)
set_and_read b vs p c =
    ground (arith, read_values-objects b vs (change b (λ o. record o { set = true }) p) c)

parse_options-step :
    (name : String) (args : List String) (p : ArgumentParser) (a b : ℕ)
    → get_argument name p ≡ some b
    → parse_options 0 a (name ∷ args) p
      ≡ parse_options (p.objects b).nargs b args (change b (λ o. record o { set = true }) p)
unfolding parse_options
parse_options-step name args p a b known = rw (known, parse_options) refl

-- An option that is known and followed by at least as many values as it takes is set, those
-- values are appended to the ones it has in their order, no other argument changes, and reading
-- continues behind the values.
pub parse_options-takes_values :
    (name : String) (vs rest : List String) (p : ArgumentParser) (a b : ℕ)
    → get_argument name p ≡ some b
    → (p.objects b).nargs ≡ length vs
    → (q : ArgumentParser) × (parse_options 0 a (name ∷ vs ++ rest) p ≡ parse_options 0 b rest q)
      × ((c : ℕ)
          → q.objects c ≡ (
              if b == c
              then record (p.objects b) { set = true; values = (p.objects b).values ++ vs }
              else p.objects c))
      × (q.arguments ≡ p.arguments)
unfolding parse_options
parse_options-takes_values name vs rest p a b known takes =
    let p' : ArgumentParser = change b (λ o. record o { set = true }) p in
    (
      read_values b vs p',
      parse_options-step name (vs ++ rest) p a b known
          ∙ ap (λ n. parse_options n b (vs ++ rest) p') takes
          ∙ parse_options-read_values b vs rest p',
      λ c. set_and_read b vs p c,
      read_values-arguments b vs p',
    )

parse_options-runs_out :
    (n a : ℕ) (vs : List String) (p : ArgumentParser)
    → length vs < n
    → (parse_options n a vs p).0 ≡ false
unfolding parse_options
parse_options-runs_out zero a vs p few = absurd (omega arith)
parse_options-runs_out (suc n) a [] p few = refl
parse_options-runs_out (suc n) a (v ∷ vs) p few =
    parse_options-runs_out n a vs (change a (add_value v) p) (omega arith)

-- Reading the command line fails if its last option is known and has fewer values behind it than
-- it takes.
pub parse_options-missing_values :
    (name : String) (vs : List String) (p : ArgumentParser) (a b : ℕ)
    → get_argument name p ≡ some b
    → length vs < (p.objects b).nargs
    → (parse_options 0 a (name ∷ vs) p).0 ≡ false
unfolding parse_options
parse_options-missing_values name vs p a b known few =
    ap (λ x. x.0) (parse_options-step name vs p a b known)
    ∙ parse_options-runs_out (p.objects b).nargs b vs (change b (λ o. record o { set = true }) p)
        few

parse_options-prog :
    (n a : ℕ) (args : List String) (p : ArgumentParser) → (parse_options n a args p).1.prog ≡ p.prog
unfolding parse_options
parse_options-prog zero a [] p = refl
parse_options-prog (suc n) a [] p = refl
parse_options-prog (suc n) a (v ∷ vs) p = parse_options-prog n a vs (change a (add_value v) p)
parse_options-prog zero a (arg ∷ args) p = elim (Option-cases (get_argument arg p)) [
  | inl e ↦ rw (e, parse_options) refl
  | inr (b, e) ↦
      ap (λ x. x.1.prog) (parse_options-step arg args p a b e)
      ∙ parse_options-prog (p.objects b).nargs b args (change b (λ o. record o { set = true }) p)
]

add_alternatives-prog :
    (stale : List String → String) (a : ℕ) (names : List String) (p : ArgumentParser)
    → (add_alternatives stale a names p).prog ≡ p.prog
unfolding add_alternatives
add_alternatives-prog stale a [] p = refl
add_alternatives-prog stale a (n ∷ names) p = add_alternatives-prog stale a names _

with_help-prog :
    (stale : List String → String) (p : ArgumentParser) → (with_help stale p).prog ≡ p.prog
unfolding with_help add_argument
with_help-prog stale p = elim (Bool-cases p.add_help) [
  | inl e ↦ ground (arith, e, add_alternatives-prog stale p.next_argument ("--help" ∷ []) _)
  | inr e ↦ ground (arith, e)
]

finish-cases :
    (parsed : Bool) (p : ArgumentParser)
    → (finish (parsed, p) ≡ none) ⊎ ((result : Bool) × (finish (parsed, p) ≡ some (result, p)))
unfolding finish
finish-cases false p = inr (false, refl)
finish-cases true p = elim (Bool-cases (is_set "-h" p && p.add_help)) [
  | inr e ↦ inr (true, ground (arith, e))
  | inl e ↦ elim (Option-cases (help_string p)) [
    | inl f ↦ inl (ground (arith, e, f))
    | inr (text, f) ↦ inr (false, ground (arith, e, f))
  ]
]

with_prog-prog : (argv0 : String) (p : ArgumentParser) → p.prog ≡ "" → (with_prog argv0 p).prog ≡ ""
unfolding with_prog
with_prog-prog argv0 p unnamed = elim (Bool-cases (str_eq p.prog "")) [
  | inl e ↦ ground (arith, e, unnamed)
  | inr e ↦ ground (arith, e, unnamed, eq_iff p.prog "")
]

-- A parser that has no program name still has none when `parse_args` returns, whatever `argv` is
-- and whatever is read through the dangling reference of `add_argument`; the only other outcome is that printing the help raises an exception.
pub parse_args-no_prog :
    (stale : List String → String) (argv0 : String) (args : List String) (p : ArgumentParser)
    → p.prog ≡ ""
    → (parse_args stale argv0 args p ≡ none)
      ⊎ ((result : Bool) × (q : ArgumentParser) × (parse_args stale argv0 args p ≡ some (result, q))
          × (q.prog ≡ ""))
unfolding parse_args
parse_args-no_prog stale argv0 args p unnamed =
    let r : Bool × ArgumentParser = parse_options 0 0 args (with_help stale (with_prog argv0 p)) in
    let named : (with_prog argv0 p).prog ≡ "" = with_prog-prog argv0 p unnamed in
    let kept : r.1.prog ≡ "" =
      parse_options-prog 0 0 args _ ∙ with_help-prog stale (with_prog argv0 p) ∙ named in
    elim (finish-cases r.0 r.1) [ inl e ↦ inl e | inr (result, e) ↦ inr (result, r.1, e, kept) ]
