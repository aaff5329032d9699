-- ===== src/Unrecognized/Maps.antt =====
-- service/program.cpp, `add`: what the map of one configuration file holds for a key.
use libservice.Prelude.{
  Text, text_eq, eq_of_text_eq, text_eq_self, Bool, true, false, Option, none, some, List, [], ◌∷◌,
  ◌++◌, ◌≡◌, refl, ap, sym, ◌∙◌, arith, All, Bool-cases, inl, inr, if◌then◌else◌,
}
use libservice.Unrecognized.{
  ParsedOption, ConfigOptions, Collected, push_value, add_tokens, add_option, add_options, is_nil,
  multi_item,
}

-- The values of a key among tokens that come in pairs, and among the undeclared options of a file.
abbrev pub values_in : Text → List Text → List Text
values_in key [] = []
values_in key (k ∷ []) = []
values_in key (k ∷ v ∷ tokens) = (if text_eq k key then v ∷ [] else []) ++ values_in key tokens

abbrev pub option_values : Text → ParsedOption → List Text
option_values key opt = if opt.unregistered then values_in key opt.original_tokens else []

abbrev pub values_of : Text → List ParsedOption → List Text
values_of key [] = []
values_of key (opt ∷ parsed) = option_values key opt ++ values_of key parsed

-- An even number of tokens, as the parser of configuration files gives for an undeclared option.
abbrev pub ArePaired : List Text → Type 0
ArePaired [] = Unit
ArePaired (k ∷ []) = ⊥
ArePaired (k ∷ v ∷ tokens) = ArePaired tokens

abbrev pub IsPaired : ParsedOption → Type 0
IsPaired opt = ArePaired opt.original_tokens

-- No key without a value.
abbrev pub IsFilled : ConfigOptions → Type 0
IsFilled = All (λ item. is_nil item.1 ≡ false)

-- What one map answers for a key, as a list.
abbrev pub values_at : Text → ConfigOptions → List Text
values_at key opts = elim (multi_item key opts) [ none ↦ [] | some vs ↦ vs ]

pub append_nil : (vs : List Text) → vs ++ [] ≡ vs
append_nil [] = refl
append_nil (v ∷ vs) = ap (λ rest. v ∷ rest) (append_nil vs)

push_value-IsFilled :
    (key value : Text) (opts : ConfigOptions) → IsFilled opts → IsFilled (push_value key value opts)
unfolding push_value
push_value-IsFilled key value [] filled = ground arith
push_value-IsFilled key value ((k, vs) ∷ opts) filled =
    ground (arith, push_value-IsFilled key value opts filled.1)

-- One item of the map, where the rest is known.
values_at-pushed :
    (key k l v : Text) (vs : List Text) (opts rest : ConfigOptions) (same : Bool)
    → text_eq l k ≡ same
    → is_nil vs ≡ false
    → values_at key rest ≡ values_at key opts ++ (if text_eq k key then v ∷ [] else [])
    → values_at key (if same then (l, vs ++ v ∷ []) ∷ opts else (l, vs) ∷ rest)
      ≡ values_at key ((l, vs) ∷ opts) ++ (if text_eq k key then v ∷ [] else [])
unfolding multi_item
values_at-pushed key k l v vs opts rest true e filled q =
    ground (arith, eq_of_text_eq l k e, append_nil (values_at key opts), append_nil vs)
values_at-pushed key k l v vs opts rest false e filled q =
    ground (arith, append_nil vs, eq_of_text_eq l key, eq_of_text_eq k key, text_eq_self key)

multi_item-push_value :
    (key k v : Text) (opts : ConfigOptions)
    → IsFilled opts
    → values_at key (push_value k v opts)
      ≡ values_at key opts ++ (if text_eq k key then v ∷ [] else [])
unfolding push_value multi_item
multi_item-push_value key k v [] filled = ground arith
multi_item-push_value key k v ((l, vs) ∷ opts) filled =
    values_at-pushed key k l v vs opts (push_value k v opts) (text_eq l k) refl filled.0
      (multi_item-push_value key k v opts filled.1)

pub append_assoc : (us vs ws : List Text) → (us ++ vs) ++ ws ≡ us ++ (vs ++ ws)
append_assoc [] vs ws = refl
append_assoc (u ∷ us) vs ws = ap (λ rest. u ∷ rest) (append_assoc us vs ws)

-- The values were added to those that a map had for the key.
abbrev pub Adds : Text → ConfigOptions → List Text → Option Collected → Type 0
Adds key opts vs none = ⊥
Adds key opts vs (some d) = IsFilled d.opts × (values_at key d.opts ≡ values_at key opts ++ vs)

Adds-trans :
    (key : Text) (opts middle : ConfigOptions) (us vs : List Text) (r : Option Collected)
    → values_at key middle ≡ values_at key opts ++ us
    → Adds key middle vs r
    → Adds key opts (us ++ vs) r
Adds-trans key opts middle us vs none e q = elim q [ ]
Adds-trans key opts middle us vs (some d) e q =
    (q.0, q.1 ∙ ap (λ ws. ws ++ vs) e ∙ append_assoc (values_at key opts) us vs)

add_tokens-Adds :
    (key : Text) (tokens : List Text) (c : Collected)
    → ArePaired tokens
    → IsFilled c.opts
    → Adds key c.opts (values_in key tokens) (add_tokens tokens c)
unfolding add_tokens
add_tokens-Adds key [] c paired filled = (filled, sym (append_nil (values_at key c.opts)))
add_tokens-Adds key (k ∷ []) c paired filled = elim paired [ ]
add_tokens-Adds key (k ∷ v ∷ tokens) c paired filled =
    Adds-trans key c.opts (push_value k v c.opts) _ (values_in key tokens) _
      (multi_item-push_value key k v c.opts filled)
      (add_tokens-Adds key tokens (record { opts = push_value k v c.opts; seen = c.seen ++ k ∷ [] })
        paired (push_value-IsFilled k v c.opts filled))

add_option-Adds :
    (key : Text) (opt : ParsedOption) (c : Collected)
    → IsPaired opt
    → IsFilled c.opts
    → Adds key c.opts (option_values key opt) (add_option opt c)
unfolding add_option
add_option-Adds key opt c paired filled = elim (Bool-cases opt.unregistered) [
  | inl e ↦ rw e (add_tokens-Adds key opt.original_tokens c paired filled)
  | inr e ↦ rw e (filled, sym (append_nil (values_at key c.opts)))
]

pub add_options-Adds :
    (key : Text) (parsed : List ParsedOption) (c : Collected)
    → All IsPaired parsed
    → IsFilled c.opts
    → Adds key c.opts (values_of key parsed) (add_options parsed c)
unfolding add_options
add_options-Adds key [] c paired filled = (filled, sym (append_nil (values_at key c.opts)))
add_options-Adds key (opt ∷ parsed) c paired filled =
    go (add_option opt c) (add_option-Adds key opt c paired.0 filled)
      (λ d f. add_options-Adds key parsed d paired.1 f)
  where
    go :
        (r : Option Collected)
        → Adds key c.opts (option_values key opt) r
        → ((d : Collected)
            → IsFilled d.opts
            → Adds key d.opts (values_of key parsed) (add_options parsed d))
        → Adds key c.opts
            (values_of key (opt ∷ parsed))
            (elim r [ none ↦ none | some d ↦ add_options parsed d ])
    go none q next = elim q [ ]
    go (some d) q next =
        Adds-trans key c.opts d.opts (option_values key opt) (values_of key parsed) _ q.1
          (next d q.0)
