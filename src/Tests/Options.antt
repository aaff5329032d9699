-- ===== src/Tests/Options.antt =====
-- Undeclared options of two configuration files, and a request for a help that nobody knows.
use libservice.Prelude.{negsuc, lit, text_eq, Text, true, false, List, [], ◌∷◌}
use libservice.Unrecognized.{
  ParsedOption, ConfigOptions, UnrecognizedOptions, add_files, found, multi_config_option,
  multi_item,
}
use libservice.Program.{Requests, Texts}
use libservice.Unrecognized.Lookups.{Answers, add_files-Answers}

abbrev undeclared : Text → Text → ParsedOption
undeclared key value = record {
  unregistered = true;
  position_key = negsuc 0;
  original_tokens = key ∷ value ∷ [];
}

-- Two values of `a` in the first file, another one and `b` in the second.
abbrev files : List (List ParsedOption)
files =
    (undeclared (lit "a") (lit "1") ∷ undeclared (lit "a") (lit "2") ∷ [])
    ∷ (undeclared (lit "a") (lit "3") ∷ undeclared (lit "b") (lit "4") ∷ [])
    ∷ []

abbrev nothing : UnrecognizedOptions
nothing = record { cmdline = []; config = []; seen_config_keys = [] }

abbrev config : List ConfigOptions
config =
    ((lit "a", lit "1" ∷ lit "2" ∷ []) ∷ [])
    ∷ ((lit "a", lit "3" ∷ []) ∷ (lit "b", lit "4" ∷ []) ∷ [])
    ∷ []

add_files-Answers_example :
    Answers (lit "a") (found (lit "1" ∷ lit "2" ∷ [])) (add_files files nothing)
unfolding multi_config_option multi_item
add_files-Answers_example =
    add_files-Answers (lit "a") files nothing ((tt, (tt, tt)), ((tt, (tt, tt)), tt))

abbrev texts : Texts
texts = record {
  licensee = [];
  disable_config_help = false;
  knows = λ what. text_eq what (lit "tuning");
  list = lit "tuning" ∷ [];
}

abbrev asked : Requests
asked = record {
  version = false;
  licence = false;
  license = false;
  help = true;
  helps = lit "tuning" ∷ lit "all" ∷ lit "nothing" ∷ [];
}
