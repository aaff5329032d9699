-- ===== src/Program/Help.antt =====
-- service/program.cpp, `configureImpl`: which requests end the program, and with which code.
use libservice.Prelude.{
  ℕ, Text, lit, text_eq, eq_of_text_eq, Bool, true, false, not, ◌||◌, ◌&&◌, Option, none, some,
  List, [], ◌∷◌, ◌≡◌, refl, ap, ◌∙◌, arith, if◌then◌else◌, Bool-cases,
}
use libservice.Program.{
  Requests, Texts, Printed, exit_code, set_insert, set_of, set_has, set_erase, is_nil, print_helps,
  help_all, help_cmdline, print_help, dispatch, text_lt,
}

-- The helps that the helper has to know: all but `all`.
abbrev pub is_answered : Texts → Text → Bool
is_answered texts what = text_eq what (lit "all") || texts.knows what

abbrev pub all_answered : Texts → List Text → Bool
all_answered texts [] = true
all_answered texts (h ∷ hs) = is_answered texts h && all_answered texts hs

abbrev all_known : Texts → List Text → Bool
all_known texts [] = true
all_known texts (h ∷ hs) = texts.knows h && all_known texts hs

all_answered-set_insert :
    (texts : Texts) (s : Text) (set : List Text)
    → all_answered texts (set_insert s set) ≡ is_answered texts s && all_answered texts set
all_answered-set_insert texts s [] = refl
all_answered-set_insert texts s (t ∷ ts) =
    go (text_eq s t) (text_lt s t) refl (all_answered-set_insert texts s ts)
  where
    go :
        (same less : Bool)
        → text_eq s t ≡ same
        → all_answered texts (set_insert s ts) ≡ is_answered texts s && all_answered texts ts
        → all_answered texts
            (if same then t ∷ ts else (if less then s ∷ t ∷ ts else t ∷ set_insert s ts))
          ≡ is_answered texts s && (is_answered texts t && all_answered texts ts)
    go true less e q = ground (arith, eq_of_text_eq s t e, Bool-cases (is_answered texts t))
    go false true e q = refl
    go false false e q =
        ground (arith, q, Bool-cases (is_answered texts t), Bool-cases (is_answered texts s))

all_answered-set_of :
    (texts : Texts) (hs set : List Text)
    → all_answered texts (set_of hs set) ≡ all_answered texts hs && all_answered texts set
all_answered-set_of texts [] set = refl
all_answered-set_of texts (h ∷ hs) set = ground (
  arith,
  all_answered-set_of texts hs (set_insert h set),
  all_answered-set_insert texts h set,
  Bool-cases (is_answered texts h),
  Bool-cases (all_answered texts hs),
)

all_known-set_erase :
    (texts : Texts) (set : List Text)
    → all_known texts (set_erase (lit "all") set) ≡ all_answered texts set
all_known-set_erase texts [] = refl
all_known-set_erase texts (t ∷ ts) = go (text_eq t (lit "all")) (all_known-set_erase texts ts)
  where
    go :
        (b : Bool)
        → all_known texts (set_erase (lit "all") ts) ≡ all_answered texts ts
        → all_known texts (if b then set_erase (lit "all") ts else t ∷ set_erase (lit "all") ts)
          ≡ (b || texts.knows t) && all_answered texts ts
    go true q = q
    go false q = ground (arith, q)

all_known-without :
    (texts : Texts) (set : List Text)
    → set_has (lit "all") set ≡ false
    → all_known texts set ≡ all_answered texts set
all_known-without texts [] e = refl
all_known-without texts (t ∷ ts) e = ground (arith, all_known-without texts ts)

-- The exit code for helps.
abbrev code_for : Bool → Option ℕ
code_for known = some (if known then 0 else 1)

print_helps_code :
    (texts : Texts) (helps : List Text)
    → exit_code (print_helps texts helps).ending ≡ code_for (all_known texts helps)
unfolding print_helps exit_code
print_helps_code texts [] = refl
print_helps_code texts (h ∷ hs) = ground (arith, print_helps_code texts hs)

help_all_code :
    (texts : Texts) (helps : List Text)
    → exit_code (help_all texts helps).ending ≡ code_for (all_known texts helps)
unfolding help_all exit_code print_helps
help_all_code texts [] = refl
help_all_code texts (h ∷ hs) = print_helps_code texts (h ∷ hs)

help_cmdline_code :
    (texts : Texts) (helps : List Text)
    → exit_code (help_cmdline texts helps).ending ≡ code_for (all_known texts helps)
unfolding help_cmdline exit_code print_helps
help_cmdline_code texts [] = refl
help_cmdline_code texts (h ∷ hs) = print_helps_code texts (h ∷ hs)

print_help_code :
    (texts : Texts) (has_help : Bool) (helps : List Text)
    → exit_code (print_help texts has_help helps).ending ≡ code_for (all_answered texts helps)
unfolding print_help
print_help_code texts has_help helps = go (set_has (lit "all") helps) has_help refl
  where
    code : Printed → Option ℕ
    code p = exit_code p.ending

    go :
        (all short : Bool)
        → set_has (lit "all") helps ≡ all
        → code (
            if all
            then help_all texts (set_erase (lit "all") helps)
            else (if short then help_cmdline texts helps else print_helps texts helps))
          ≡ code_for (all_answered texts helps)
    go true short e =
        help_all_code texts (set_erase (lit "all") helps)
        ∙ ap code_for (all_known-set_erase texts helps)
    go false true e = help_cmdline_code texts helps ∙ ap code_for (all_known-without texts helps e)
    go false false e = print_helps_code texts helps ∙ ap code_for (all_known-without texts helps e)

is_nil-set_insert : (s : Text) (set : List Text) → is_nil (set_insert s set) ≡ false
is_nil-set_insert s [] = refl
is_nil-set_insert s (t ∷ ts) = ground arith

is_nil-set_of : (hs set : List Text) → is_nil (set_of hs set) ≡ is_nil hs && is_nil set
is_nil-set_of [] set = refl
is_nil-set_of (h ∷ hs) set =
    ground (arith, is_nil-set_of hs (set_insert h set), is_nil-set_insert h set)

-- A request for the version or the licence ends the program with code 0; without one, a request for
-- help ends it with code 0 when each help asked for is `all` or known to the helper, and with code 1
-- when one is not; without any of them the program goes on.
dispatch_code :
    (texts : Texts) (asked : Requests)
    → exit_code (dispatch texts asked).ending ≡ (
        if asked.version || (asked.licence || asked.license)
        then some 0
        else (if asked.help || not (is_nil asked.helps)
            then some (if all_answered texts asked.helps then 0 else 1)
            else none))
unfolding dispatch exit_code
dispatch_code texts asked = ground (
  arith,
  print_help_code texts asked.help (set_of asked.helps []),
  all_answered-set_of texts asked.helps [],
  is_nil-set_of asked.helps [],
)
