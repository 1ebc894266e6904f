-- ===== src/Tests/Options.antt =====
-- A parser with one option of two values.
use oxford_sigmod.Base.{
  ℕ, Bool, List, String, false, true, none, some, [], ◌∷◌, ◌≡◌, ◌⊎◌, refl, arith, if◌then◌else◌,
  ◌==◌,
}
use oxford_sigmod.Manager
use oxford_sigmod.Manager.{lookup}
use oxford_sigmod.ArgumentParser.{
  ArgumentParser, new_parser, new_argument, add_argument, add_alternatives, get_argument,
  parse_options, parse_args, change, add_value,
}
use oxford_sigmod.ArgumentParser.Options.{
  parse_options-takes_values, parse_options-missing_values, parse_args-no_prog,
}

-- What a memory that still holds the first name would give.
abbrev first_name : List String → String
first_name names = "-p"

abbrev parser : ArgumentParser
unfolding new_parser add_argument add_alternatives new_argument Manager.insert
parser =
    change 0 (λ a. record a { nargs = 2 }) (add_argument first_name "-p" ("--pair" ∷ []) new_parser)

parse_pair : (parse_options 0 0 ("--pair" ∷ "1" ∷ "2" ∷ []) parser).1.objects 0 ≡ record {
  nargs = 2;
  required = false;
  help = "test";
  metavar = "";
  set = true;
  values = "1" ∷ "2" ∷ [];
}
unfolding parse_options get_argument lookup add_value new_argument parser
parse_pair = refl

parse_options-takes_values_example :
    (q : ArgumentParser) × (parse_options 0 7 ("-p" ∷ "1" ∷ "2" ∷ "-h" ∷ []) parser
      ≡ parse_options 0 0 ("-h" ∷ []) q)
    × ((c : ℕ)
        → q.objects c ≡ (
            if 0 == c
            then record (parser.objects 0) { set = true; values = "1" ∷ "2" ∷ [] }
            else parser.objects c))
    × (q.arguments ≡ parser.arguments)
unfolding get_argument lookup new_argument new_parser parser
parse_options-takes_values_example =
    parse_options-takes_values "-p" ("1" ∷ "2" ∷ []) ("-h" ∷ []) parser 7 0 refl refl

parse_options-missing_values_example : (parse_options 0 7 ("-p" ∷ "1" ∷ []) parser).0 ≡ false
unfolding get_argument lookup parser
parse_options-missing_values_example =
    parse_options-missing_values "-p" ("1" ∷ []) parser 7 0 refl (omega arith)

parse_args-no_prog_example :
    (parse_args first_name "prog" ("--pair" ∷ "1" ∷ "2" ∷ []) parser ≡ none)
    ⊎ ((result : Bool) × (q : ArgumentParser) × (parse_args first_name "prog"
            ("--pair" ∷ "1" ∷ "2" ∷ [])
            parser
          ≡ some (result, q))
        × (q.prog ≡ ""))
unfolding parser
parse_args-no_prog_example =
    parse_args-no_prog first_name "prog" ("--pair" ∷ "1" ∷ "2" ∷ []) parser refl
