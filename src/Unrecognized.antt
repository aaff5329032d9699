-- ===== src/Unrecognized.antt =====
-- service/program.{hpp,cpp}, `UnrecognizedOptions`: the options that nobody has declared, collected
-- from the configuration files, and the lookups in them.
pub mod Maps
pub mod Lookups
use libservice.Prelude.{
  ℕ, ℤ, Text, text_eq, Bool, true, false, ◌||◌, Option, none, some, List, [], ◌∷◌, ◌++◌,
  if◌then◌else◌,
}

-- What the program uses of `boost::program_options::basic_option`.
pub record ParsedOption : Type 0 where
  pub unregistered : Bool
  -- Where it stands among the positional arguments; -1 for an option.
  pub position_key : ℤ
  pub original_tokens : List Text

-- A map as a list of its items: the order of the keys is not used.
abbrev pub ConfigOptions : Type 0
ConfigOptions = List (Text × List Text)

pub record UnrecognizedOptions : Type 0 where
  pub cmdline : List Text
  pub config : List ConfigOptions
  pub seen_config_keys : List Text

-- `opts[key].push_back(value)`.
unfoldable pub push_value : Text → Text → ConfigOptions → ConfigOptions
push_value key value [] = (key, value ∷ []) ∷ []
push_value key value ((k, vs) ∷ opts) =
    let rest = push_value key value opts in
    if text_eq k key then (k, vs ++ value ∷ []) ∷ opts else (k, vs) ∷ rest

-- What the loops of `add` change.
pub record Collected : Type 0 where
  pub opts : ConfigOptions
  pub seen : List Text

-- The tokens are read in pairs; an odd one is followed by a read past the end, `none`.
unfoldable pub add_tokens : List Text → Collected → Option Collected
unfolding push_value
add_tokens [] c = some c
add_tokens (key ∷ []) c = none
add_tokens (key ∷ value ∷ tokens) c =
    add_tokens tokens (record { opts = push_value key value c.opts; seen = c.seen ++ key ∷ [] })

unfoldable pub add_option : ParsedOption → Collected → Option Collected
unfolding add_tokens
add_option opt c = if opt.unregistered then add_tokens opt.original_tokens c else some c

unfoldable pub add_options : List ParsedOption → Collected → Option Collected
unfolding add_option
add_options [] c = some c
add_options (opt ∷ parsed) c = elim (add_option opt c) [
  | none ↦ none
  | some d ↦ add_options parsed d
]

abbrev pub is_nil {ℓ} : {A : Type ℓ} → List A → Bool
is_nil [] = true
is_nil (x ∷ xs) = false

-- `add`: the map of one file is kept only if it is not empty.
unfoldable pub add : List ParsedOption → UnrecognizedOptions → Option UnrecognizedOptions
unfolding add_options
add parsed un = elim (add_options parsed (record { opts = []; seen = un.seen_config_keys })) [
  | none ↦ none
  | some c ↦ some (record un {
    config = if is_nil c.opts then un.config else un.config ++ c.opts ∷ [];
    seen_config_keys = c.seen;
  })
]

-- The loop of `configureImpl` over the configuration files.
unfoldable pub add_files :
    List (List ParsedOption) → UnrecognizedOptions → Option UnrecognizedOptions
unfolding add
add_files [] un = some un
add_files (parsed ∷ files) un = elim (add parsed un) [ none ↦ none | some r ↦ add_files files r ]

-- A value, or one of the exceptions of Boost.Program_options.
pub data Lookup {ℓ} (A : Type ℓ) : Type ℓ where
  found : A → Lookup A
  required_option multiple_values : Lookup A

-- The inner loops of the two lookups; `none` goes on with the next map.
unfoldable pub multi_item : Text → ConfigOptions → Option (List Text)
multi_item key [] = none
multi_item key ((k, vs) ∷ opts) =
    let rest = multi_item key opts in
    if text_eq k key then (if is_nil vs then rest else some vs) else rest

unfoldable pub multi_config_option : Text → List ConfigOptions → Lookup (List Text)
unfolding multi_item
multi_config_option key [] = required_option
multi_config_option key (co ∷ config) =
    let rest = multi_config_option key config in
    elim (multi_item key co) [ none ↦ rest | some vs ↦ found vs ]

-- One value is the answer, several are an error, none goes on.
unfoldable pub single_value : List Text → Option (Lookup Text) → Option (Lookup Text)
single_value [] rest = rest
single_value (v ∷ []) rest = some (found v)
single_value (v ∷ w ∷ vs) rest = some multiple_values

unfoldable pub single_item : Text → ConfigOptions → Option (Lookup Text)
unfolding single_value
single_item key [] = none
single_item key ((k, vs) ∷ opts) =
    let rest = single_item key opts in if text_eq k key then single_value vs rest else rest

unfoldable pub single_config_option : Text → List ConfigOptions → Lookup Text
unfolding single_item
single_config_option key [] = required_option
single_config_option key (co ∷ config) =
    let rest = single_config_option key config in
    elim (single_item key co) [ none ↦ rest | some r ↦ r ]

abbrev pub has_key : Text → List Text → Bool
has_key key [] = false
has_key key (k ∷ ks) = text_eq k key || has_key key ks

-- `insert` of a set, which is a list without repetitions.
abbrev pub insert_key : Text → List Text → List Text
insert_key k ks = if has_key k ks then ks else k ∷ ks

unfoldable pub item_keys : ConfigOptions → List Text → List Text
item_keys [] ks = ks
item_keys ((k, vs) ∷ opts) ks = item_keys opts (insert_key k ks)

unfoldable pub config_keys : List ConfigOptions → List Text → List Text
unfolding item_keys
config_keys [] ks = ks
config_keys (co ∷ config) ks = config_keys config (item_keys co ks)
