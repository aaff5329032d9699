-- ===== src/Unrecognized/Lookups.antt =====
-- service/program.cpp, `UnrecognizedOptions`: what the lookups find after configuration files were
-- read.
use libservice.Prelude.{
  Text, text_eq, eq_of_text_eq, Bool, true, false, not, ◌||◌, Option, none, some, List, [], ◌∷◌,
  ◌++◌, ◌≡◌, refl, ap, ◌∙◌, arith, All, Bool-cases, if◌then◌else◌,
}
use mathlib.Core.Path.{subst}
use libservice.Unrecognized.{
  ParsedOption, ConfigOptions, UnrecognizedOptions, Collected, add_options, is_nil, add, add_files,
  Lookup, found, required_option, multiple_values, multi_item, multi_config_option, single_value,
  single_item, single_config_option, has_key, insert_key, item_keys, config_keys,
}
use libservice.Unrecognized.Maps.{values_of, IsPaired, IsFilled, values_at, Adds, add_options-Adds}

-- A list of values as the answer of a lookup.
abbrev pub answer : List Text → Option (List Text)
answer [] = none
answer (v ∷ vs) = some (v ∷ vs)

-- The first file that has the key answers.
abbrev pub first_values : Text → List (List ParsedOption) → Lookup (List Text)
first_values key [] = required_option
first_values key (parsed ∷ files) =
    let rest = first_values key files in
    elim (answer (values_of key parsed)) [ none ↦ rest | some vs ↦ found vs ]

-- The lookup of one value is the lookup of all of them, which refuses more than one.
abbrev pub only : Lookup (List Text) → Lookup Text
only (found []) = required_option
only (found (v ∷ [])) = found v
only (found (v ∷ w ∷ vs)) = multiple_values
only required_option = required_option
only multiple_values = multiple_values

single_item-multi_item :
    (key : Text) (opts : ConfigOptions) (r : Lookup (List Text))
    → (elim (single_item key opts) [ none ↦ only r | some a ↦ a ])
      ≡ only (elim (multi_item key opts) [ none ↦ r | some vs ↦ found vs ])
unfolding single_item multi_item single_value
single_item-multi_item key [] r = refl
single_item-multi_item key ((k, vs) ∷ opts) r = ground (arith, single_item-multi_item key opts r)

-- `singleConfigOption` looks up what `multiConfigOption` does, in whatever maps, and answers with its
-- one value; more than one value is `multiple_values`.
single_config_option-only :
    (key : Text) (config : List ConfigOptions)
    → single_config_option key config ≡ only (multi_config_option key config)
unfolding single_config_option multi_config_option
single_config_option-only key [] = refl
single_config_option-only key (co ∷ config) = ground (
  arith,
  single_config_option-only key config,
  single_item-multi_item key co (multi_config_option key config),
)

abbrev or_else {ℓ} : {A : Type ℓ} → Lookup A → Lookup A → Lookup A
or_else (found a) r = found a
or_else required_option r = r
or_else multiple_values r = multiple_values

multi-append :
    (key : Text) (cs ds : List ConfigOptions)
    → multi_config_option key (cs ++ ds)
      ≡ or_else (multi_config_option key cs) (multi_config_option key ds)
unfolding multi_config_option
multi-append key [] ds = refl
multi-append key (co ∷ cs) ds = ground (arith, multi-append key cs ds)

multi_item-answer :
    (key : Text) (opts : ConfigOptions) → multi_item key opts ≡ answer (values_at key opts)
unfolding multi_item
multi_item-answer key [] = refl
multi_item-answer key ((k, vs) ∷ opts) = ground (arith, multi_item-answer key opts)

-- The lookup of a key, after an addition, answers this.
abbrev pub Answers : Text → Lookup (List Text) → Option UnrecognizedOptions → Type 0
Answers key l none = ⊥
Answers key l (some un) = multi_config_option key un.config ≡ l

add-Answers :
    (key : Text) (parsed : List ParsedOption) (un : UnrecognizedOptions)
    → All IsPaired parsed
    → Answers key
        (or_else (multi_config_option key un.config) (first_values key (parsed ∷ [])))
        (add parsed un)
unfolding add multi_config_option multi_item
add-Answers key parsed un paired =
    go (add_options parsed start) (add_options-Adds key parsed start paired tt)
  where
    start : Collected
    start = record { opts = []; seen = un.seen_config_keys }

    go :
        (r : Option Collected)
        → Adds key [] (values_of key parsed) r
        → Answers key
            (or_else (multi_config_option key un.config) (first_values key (parsed ∷ [])))
            (elim r [
              | none ↦ none
              | some c ↦ some (record un {
                config = if is_nil c.opts then un.config else un.config ++ c.opts ∷ [];
                seen_config_keys = c.seen;
              })
            ])
    go none q = elim q [ ]
    go (some d) q =
        ground (arith, q.1, multi_item-answer key d.opts, multi-append key un.config (d.opts ∷ []))

or_else_assoc :
    (key : Text) (parsed : List ParsedOption) (files : List (List ParsedOption))
    (l : Lookup (List Text))
    → or_else (or_else l (first_values key (parsed ∷ []))) (first_values key files)
      ≡ or_else l (first_values key (parsed ∷ files))
or_else_assoc key parsed files l = ground arith

-- Reading configuration files whose undeclared options have a value for each key never fails, and
-- then the lookup of a key answers with what was there before, or else with all values that the
-- first file with the key gives it, in their order; files after it do not count.
pub add_files-Answers :
    (key : Text) (files : List (List ParsedOption)) (un : UnrecognizedOptions)
    → All (All IsPaired) files
    → Answers key
        (or_else (multi_config_option key un.config) (first_values key files))
        (add_files files un)
unfolding add_files
add_files-Answers key [] un paired = ground arith
add_files-Answers key (parsed ∷ files) un paired =
    go (add parsed un) (add-Answers key parsed un paired.0)
      (λ next. add_files-Answers key files next paired.1)
  where
    go :
        (r : Option UnrecognizedOptions)
        → Answers key
            (or_else (multi_config_option key un.config) (first_values key (parsed ∷ [])))
            r
        → ((next : UnrecognizedOptions)
            → Answers key
                (or_else (multi_config_option key next.config) (first_values key files))
                (add_files files next))
        → Answers key
            (or_else (multi_config_option key un.config) (first_values key (parsed ∷ files)))
            (elim r [ none ↦ none | some next ↦ add_files files next ])
    go none q rest = elim q [ ]
    go (some next) q rest =
        subst (λ l. Answers key l (add_files files next))
          (ap (λ l. or_else l (first_values key files)) q
            ∙ or_else_assoc key parsed files (multi_config_option key un.config))
          (rest next)

has_key-insert_key :
    (key k : Text) (ks : List Text)
    → has_key key (insert_key k ks) ≡ text_eq k key || has_key key ks
has_key-insert_key key k ks =
    ground (arith, Bool-cases (has_key k ks), eq_of_text_eq k key, Bool-cases (has_key key ks))

has_key-item_keys :
    (key : Text) (opts : ConfigOptions) (ks : List Text)
    → IsFilled opts
    → has_key key (item_keys opts ks) ≡ not (is_nil (values_at key opts)) || has_key key ks
unfolding item_keys multi_item
has_key-item_keys key [] ks filled = refl
has_key-item_keys key ((k, vs) ∷ opts) ks filled = ground (
  arith,
  filled.0,
  has_key-item_keys key opts (insert_key k ks) filled.1,
  has_key-insert_key key k ks,
)

abbrev is_found {ℓ} : {A : Type ℓ} → Lookup A → Bool
is_found (found a) = true
is_found required_option = false
is_found multiple_values = false

-- `configKeys` has the keys that `multiConfigOption` finds, and no other, where no key is without a
-- value.
has_key-config_keys :
    (key : Text) (config : List ConfigOptions) (ks : List Text)
    → All IsFilled config
    → has_key key (config_keys config ks)
      ≡ is_found (multi_config_option key config) || has_key key ks
unfolding config_keys multi_config_option
has_key-config_keys key [] ks filled = refl
has_key-config_keys key (co ∷ config) ks filled = ground (
  arith,
  has_key-config_keys key config (item_keys co ks) filled.1,
  has_key-item_keys key co ks filled.0,
  multi_item-answer key co,
)
