-- ===== src/ConfigFile.antt =====
-- service/config.hpp, `Config`: the older configuration of programs, without files of other options.
pub mod Positional
use libservice.Prelude.{
  ℕ, zero, suc, ℤ, pos, negsuc, Text, lit, Bool, true, false, Option, none, some, List, [], ◌∷◌,
  if◌then◌else◌,
}
use libservice.Os.{Env, runtime_error, po_error, read_config, M, ◌>>=◌, ◌>>◌, pure, throw, ask}
use libservice.Os
use libservice.Unrecognized.{ParsedOption}

-- Boost.Program_options for the options of the program.
pub record Options (V : Type 0) : Type 0 where
  pub empty : V
  pub store : List ParsedOption → V → Option V
  pub count : Text → V → Bool
  pub texts : Text → V → List Text
  pub parse_args : List Text → Option (List ParsedOption)
  pub parse_file : Text → Option (List ParsedOption)
  pub notify : V → Bool

pub record Config (V : Type 0) : Type 0 where
  pub vm : V
  pub help_only : Bool
  pub args : List Text

-- An exception of Boost as `BadInit_t`, which is a `std::runtime_error`, and as it is.
abbrev pub or_bad_init {ℓ} : {A : Type ℓ} → Option A → M A
or_bad_init none = throw runtime_error
or_bad_init (some a) = pure a

abbrev pub or_po_error {ℓ} : {A : Type ℓ} → Option A → M A
or_po_error none = throw po_error
or_po_error (some a) = pure a

abbrev pub notified : Bool → M (Unit {0})
notified true = pure tt
notified false = throw runtime_error

module _ {V : Type 0} (env : Env) (po : Options V) where
  -- The configuration file. An exception of Boost is not caught here.
  unfoldable pub store_text : V → Option Text → M V
  store_text vm none = throw runtime_error
  store_text vm (some text) = do
    parsed ← or_po_error (po.parse_file text)
    or_po_error (po.store parsed vm)

  abbrev pub first_text : List Text → Text
  first_text [] = []
  first_text (s ∷ ss) = s

  unfoldable pub read_file : V → M V
  unfolding store_text
  read_file vm =
      let path : Text = first_text (po.texts (lit "config") vm) in
      do r ← ask (read_config path) (λ h. env.contents h path); store_text vm r

  unfoldable pub read_config_file : V → M V
  unfolding read_file
  read_config_file vm = if po.count (lit "config") vm then read_file vm else pure vm

  -- `fillPositional`.
  unfoldable pub fill_positional : V → List Text
  fill_positional vm = if po.count (lit "positional") vm then po.texts (lit "positional") vm else []

  unfoldable pub finish_init : V → M (Config V)
  unfolding read_config_file fill_positional
  finish_init vm = do
    next ← read_config_file vm
    notified (po.notify next)
    pure (record { vm = next; help_only = false; args = fill_positional next })

  -- `init`. With `--help` the positional arguments stay as they were.
  unfoldable pub init : List Text → List Text → M (Config V)
  unfolding finish_init
  init args before = do
    parsed ← or_bad_init (po.parse_args args)
    vm ← or_bad_init (po.store parsed po.empty)
    if po.count (lit "help") vm
        then pure (record { vm = vm; help_only = true; args = before })
        else finish_init vm

-- `getPositional`, before the text is read as a value. An index below 0 is not refused.
unfoldable pub item_at : ℕ → List Text → Option Text
item_at i [] = none
item_at zero (s ∷ ss) = some s
item_at (suc i) (s ∷ ss) = item_at i ss

abbrev pub or_missing : Option Text → M Text
or_missing none = throw runtime_error
or_missing (some s) = pure s

unfoldable pub get_positional : ℤ → List Text → M Text
unfolding item_at
get_positional (pos i) args = or_missing (item_at i args)
get_positional (negsuc n) args = λ h. Os.undefined h
