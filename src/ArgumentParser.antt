-- ===== src/ArgumentParser.antt =====
-- The command line parser of common/argument_parser.h and common/argument_parser.cc: declaring
-- options, reading the command line, and the texts of the help. Messages on the output streams are
-- not kept.
pub mod Options
use Prim.Native.String.{◌++◌ as append, len}
use text.Mathlib.Text.{◌==◌ as str_eq}
use oxford_sigmod.Base.{
  ℕ, zero, suc, ◌-◌, Bool, true, false, not, ◌&&◌, Option, none, some, List, [], ◌∷◌, ◌++◌, String,
  if◌then◌else◌, ltb, get_elem?, Option-cases,
}
use oxford_sigmod.World.{update}
use oxford_sigmod.Manager.{lookup, insert}

-- The fields of class Argument that the parser reads. `values` holds the texts of its Value objects.
pub record Argument : Type 0 where
  pub nargs : ℕ
  pub required : Bool
  pub help : String
  pub metavar : String
  pub set : Bool
  pub values : List String

-- `Argument::Argument`
unfoldable pub new_argument : Argument
new_argument = record {
  nargs = 0;
  required = false;
  help = "test";
  metavar = "";
  set = false;
  values = [];
}

-- `Argument::add_value`
unfoldable pub add_value : String → Argument → Argument
add_value v a = record a { values = a.values ++ v ∷ [] }

-- `Value::toBool`
unfoldable pub to_bool : String → Bool
to_bool v = if str_eq v "false" then false else if str_eq v "0" then false else true

-- The fields of class ArgumentParser, and the Argument objects that it has allocated.
pub record ArgumentParser : Type 0 where
  pub arguments : List (String × ℕ)
  pub alternative_args : List (String × List String)
  pub arg_list : List String
  pub indent : String
  pub padding : ℕ
  pub prolog : String
  pub description : String
  pub epilog : String
  pub add_help : Bool
  pub prog : String
  pub usage : String
  pub objects : ℕ → Argument
  pub next_argument : ℕ

-- `ArgumentParser::ArgumentParser`
unfoldable pub new_parser : ArgumentParser
unfolding new_argument
new_parser = record {
  arguments = [];
  alternative_args = [];
  arg_list = [];
  indent = "\t";
  padding = 50;
  prolog = "";
  description = "";
  epilog = "";
  add_help = true;
  prog = "";
  usage = "";
  objects = λ a. new_argument;
  next_argument = 0;
}

abbrev pub change : ℕ → (Argument → Argument) → ArgumentParser → ArgumentParser
change a f p = record p { objects = update p.objects a (f (p.objects a)) }

-- `alternative_args_[name]`, which has an empty list for a name that is not there.
abbrev pub alternatives : String → ArgumentParser → List String
alternatives name p = elim (lookup name p.alternative_args) [ none ↦ [] | some names ↦ names ]

-- The loop of `add_argument` over the names after the first. The source reads the first name through
-- a reference to an element that has been popped: `stale` is what is read there, with these names
-- left, and nothing is known of it.
unfoldable pub add_alternatives :
    (List String → String) → ℕ → List String → ArgumentParser → ArgumentParser
unfolding lookup insert
add_alternatives stale a [] p = p
add_alternatives stale a (n ∷ names) p = add_alternatives stale a names (
    let s = stale (n ∷ names) in
    record p {
      alternative_args = insert s (alternatives s p ++ n ∷ []) p.alternative_args;
      arguments = insert n a p.arguments;
    })

-- `ArgumentParser::add_argument`, on the first name and the others. The argument that it returns is
-- the object at `next_argument` before the call.
unfoldable pub add_argument :
    (List String → String) → String → List String → ArgumentParser → ArgumentParser
unfolding add_alternatives new_argument insert
add_argument stale name names p = add_alternatives stale p.next_argument names (record p {
  objects = update p.objects p.next_argument new_argument;
  next_argument = suc p.next_argument;
  arg_list = p.arg_list ++ name ∷ [];
  arguments = insert name p.next_argument p.arguments;
})

-- `ArgumentParser::get_argument`
unfoldable pub get_argument : String → ArgumentParser → Option ℕ
unfolding lookup
get_argument name p = lookup name p.arguments

-- `ArgumentParser::is_set`
unfoldable pub is_set : String → ArgumentParser → Bool
unfolding get_argument
is_set name p = elim (get_argument name p) [ none ↦ false | some a ↦ (p.objects a).set ]

-- `ArgumentParser::get_value`: `some none` is NULL, and `none` a value that is out of range.
unfoldable pub get_value : String → ℕ → ArgumentParser → Option (Option String)
unfolding get_argument
get_value name index p = elim (get_argument name p) [
  | none ↦ some none
  | some a ↦ elim (get_elem? (p.objects a).values index) [ none ↦ none | some v ↦ some (some v) ]
]

-- The loops of `parse_args`: `pending` values of the object `a` are still to be read.
unfoldable pub parse_options : ℕ → ℕ → List String → ArgumentParser → Bool × ArgumentParser
unfolding get_argument add_value
parse_options zero a [] p = (true, p)
parse_options (suc pending) a [] p = (false, p)
parse_options zero a (arg ∷ args) p = elim (get_argument arg p) [
  | none ↦ (false, p)
  | some b ↦ parse_options (p.objects b).nargs b args (change b (λ o. record o { set = true }) p)
]
parse_options (suc pending) a (arg ∷ args) p =
    parse_options pending a args (change a (add_value arg) p)

abbrev is_empty : String → Bool
is_empty s = str_eq s ""

abbrev after_space : String → String
after_space s = if is_empty s then "" else append " " s

-- One round of the loop of `usage_string`.
abbrev pub usage_item : String → Argument → String
usage_item name a =
    let item = append name (after_space a.metavar) in
    append " " (if a.required then item else append "[" (append item "]"))

unfoldable pub usage_items : ArgumentParser → List String → String
unfolding get_argument
usage_items p [] = ""
usage_items p (name ∷ names) =
    let rest = usage_items p names in
    elim (get_argument name p) [
      | none ↦ rest
      | some a ↦ append (usage_item name (p.objects a)) rest
    ]

-- `ArgumentParser::usage_string`
unfoldable pub usage_string : ArgumentParser → String
unfolding usage_items
usage_string p = if is_empty p.usage then append p.prog (usage_items p p.arg_list) else p.usage

abbrev pub spaces : ℕ → String
spaces zero = ""
spaces (suc n) = append " " (spaces n)

unfoldable pub alternative_names : String → List String → String
alternative_names metavar [] = ""
alternative_names metavar (n ∷ names) =
    append ", " (append n (append metavar (alternative_names metavar names)))

-- `ArgumentParser::option_string`. Names that are longer than the padding make an unsigned number
-- wrap around, and the string of that length raises an exception: `none`.
unfoldable pub option_string : String → ArgumentParser → Option String
unfolding get_argument alternative_names lookup
option_string name p = elim (get_argument name p) [
  | none ↦ some ""
  | some b ↦
      let a = p.objects b in
      let metavar = after_space a.metavar in
      let names = append name (append metavar (alternative_names metavar (alternatives name p))) in
      if ltb p.padding (len names)
      then none
      else some (append names (append (spaces (p.padding - len names)) a.help))
]

unfoldable pub option_lines : ArgumentParser → List String → Option String
unfolding option_string
option_lines p [] = some ""
option_lines p (name ∷ names) =
    let rest = option_lines p names in
    elim (option_string name p) [
      | none ↦ none
      | some s ↦ elim rest [
        | none ↦ none
        | some t ↦ some (append p.indent (append s (append "\n" t)))
      ]
    ]

abbrev paragraph : String → String → String
paragraph s ending = if is_empty s then "" else append s ending

-- `ArgumentParser::help_string`
unfoldable pub help_string : ArgumentParser → Option String
unfolding option_lines usage_string
help_string p = elim (option_lines p p.arg_list) [
  | none ↦ none
  | some options ↦ some (
      append (paragraph p.description "\n\n") (
        append "Usage:\n" (
          append p.indent (
            append (usage_string p) (
              append "\n" (
                append (paragraph p.prolog "\n")
                  (append "\nOptions:\n" (append options (paragraph p.epilog "\n")))))))))
]

-- `ArgumentParser::parse_args`, on `argv[0]` and the rest; `none` if printing the help raises an
-- exception.
unfoldable pub with_prog : String → ArgumentParser → ArgumentParser
with_prog argv0 p = if is_empty p.prog then p else record p { prog = argv0 }

unfoldable pub with_help : (List String → String) → ArgumentParser → ArgumentParser
unfolding add_argument
with_help stale p =
    if p.add_help
    then change p.next_argument (λ a. record a { help = "Display this message" })
        (add_argument stale "-h" ("--help" ∷ []) p)
    else p

unfoldable pub finish : Bool × ArgumentParser → Option (Bool × ArgumentParser)
unfolding is_set help_string
finish (false, p) = some (false, p)
finish (true, p) = elim (is_set "-h" p && p.add_help) [
  | false ↦ some (true, p)
  | true ↦ elim (help_string p) [ none ↦ none | some text ↦ some (false, p) ]
]

unfoldable pub parse_args :
    (List String → String) → String → List String → ArgumentParser → Option (Bool × ArgumentParser)
unfolding with_prog with_help parse_options finish
parse_args stale argv0 args p =
    finish (parse_options 0 0 args (with_help stale (with_prog argv0 p)))
