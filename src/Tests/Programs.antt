-- ===== src/Tests/Programs.antt =====
-- The configuration of a program at concrete inputs: each two arguments are the name of an option and
-- its value, and a configuration file gives its contents to `mode`.
use libservice.Prelude.{
  ap, Bool, pos, negsuc, Text, lit, text_eq, true, false, Option, none, some, List, [], ◌∷◌, ◌++◌,
  ◌≡◌, refl, arith, if◌then◌else◌,
}
use libservice.Os.{Env, immediate_exit, Returns, pure, throw}
use libservice.Unrecognized.{ParsedOption}
use libservice.Program.Options.{Po, Derived}
use libservice.Program.Configure.{configure, with_files, files_of}
use libservice.Program.Stored.{StoreLaws, or_else}
use libservice.Program.Precedence.{configure-Has}
use libservice.Program.Sources.{Gains, config_given, with_files-Gains}
use libservice.Program.Quietness.{Quiet}
use libservice.Service.Settings.{operator_call}
use libservice.Service.Signalled.{signal_hook, operator_call-signal_hook}
use libservice.Cmdline.{handle_operator}
use libservice.Cmdline.Exits.{NoThrow, handle_operator-NoThrow}
use libservice.Tests.Environments.{calm}
use libservice.Program.Starting.{NoStart, Calm}
use libservice.Service.Refusals.{operator_call_refused}
use libservice.Tests.Startups.{user, unprivileged, refused}

abbrev pub Values : Type 0
Values = List (Text × List Text)

pub lookup : Text → Values → Option (List Text)
lookup k [] = none
lookup k ((l, vs) ∷ vm) = let rest = lookup k vm in if text_eq k l then some vs else rest

lookup-append : (k : Text) (a b : Values) → lookup k (a ++ b) ≡ or_else (lookup k a) (lookup k b)
unfolding lookup
lookup-append k [] b = refl
lookup-append k ((l, vs) ∷ a) b = ground (arith, lookup-append k a b)

abbrev entry : List Text → Text × List Text
entry [] = ([], [])
entry (k ∷ vs) = (k, vs)

abbrev entries : List ParsedOption → Values
entries [] = []
entries (o ∷ parsed) = entry o.original_tokens ∷ entries parsed

abbrev option : Text → Text → ParsedOption
option k v = record { unregistered = false; position_key = negsuc 0; original_tokens = k ∷ v ∷ [] }

abbrev pairs : List Text → List ParsedOption
pairs [] = []
pairs (k ∷ []) = []
pairs (k ∷ (v ∷ args)) = option k v ∷ pairs args

abbrev values_of : Option (List Text) → List Text
values_of none = []
values_of (some vs) = vs

abbrev texts_in : Text → Values → List Text
texts_in k vm = values_of (lookup k vm)

abbrev is_given : Option (List Text) → Bool
is_given none = false
is_given (some vs) = true

abbrev pub po : Po Values
po = record {
  empty = [];
  store = λ parsed vm. some (vm ++ entries parsed);
  count = λ k vm. is_given (lookup k vm);
  texts = texts_in;
  flag = λ k vm. true;
  parse_args = λ parser args. some (pairs args);
  parse_file = λ keep text. some (option (lit "mode") text ∷ []);
  notify = λ vm. true;
  name_for_position = λ n. [];
  tokens = λ text. text ∷ [];
  archived = λ path t. path;
}

some_eq : {A : Type 0} {a b : A} → some a ≡ some b → a ≡ b
some_eq e = ground (arith, e)

abbrev laws : StoreLaws po
laws = record {
  value = lookup;
  given = λ k parsed. lookup k (entries parsed);
  stores = λ k parsed vm next e. rw (← some_eq e) (lookup-append k vm (entries parsed));
  counts = λ k v vm e. ap is_given e;
  reads = λ k v vm e. ap values_of e;
}

abbrev disk : Text → Option Text
disk f = some (lit "slow")

abbrev disk_env : Env
disk_env = record calm { contents = λ t path. some (lit "slow") }

abbrev pub derived : Derived Values
derived = record {
  flags = 0;
  default_config_file = some (lit "/etc/service.conf");
  extra_parser = none;
  texts =
      λ vm. record { licensee = []; disable_config_help = false; knows = λ s. false; list = [] };
  licence_check = pure tt;
  pre_config_hook = λ vm. pure tt;
  configure_unrecognized = λ vm un. pure none;
  pre_notify_hook = λ vm. pure tt;
  configure = λ vm. pure tt;
}

-- A service.
abbrev service : Derived Values
service = record derived { pre_config_hook = signal_hook disk_env po 5 }

abbrev signalling : List Text
signalling = lit "signal" ∷ lit "stop" ∷ lit "pidfile" ∷ lit "/run/pid" ∷ []

configure-Has_example :
    Returns
      (λ c t. lookup (lit "mode") c.vm ≡ some (lit "fast" ∷ []))
      (configure disk_env po derived (lit "mode" ∷ lit "fast" ∷ []) [])
configure-Has_example =
    configure-Has disk_env po laws (lit "mode") (lit "fast" ∷ []) derived
      (lit "mode" ∷ lit "fast" ∷ []) [] (unfold lookup in refl)

with_files-Gains_example :
    Returns
      (λ c t.
        Gains disk_env po laws
          (lit "mode")
          disk
          []
          (config_given disk_env po laws (lit "mode") disk false c.config_files)
          c.vm
        × (c.config_files ≡ files_of disk_env po derived []))
      (with_files disk_env po derived ([], []) [])
with_files-Gains_example =
    with_files-Gains disk_env po laws (lit "mode") disk (λ t f. refl) derived ([], []) [] refl

operator_call-signal_hook_example :
    Quiet [] (operator_call po (λ s. 8) disk_env service user 5 signalling [])
operator_call-signal_hook_example =
    operator_call-signal_hook disk_env po laws (lit "stop") (λ s. 8) service user 5 5 signalling []
      refl (λ t. refl) (unfold lookup in refl)

handle_operator-NoThrow_example :
    NoThrow (handle_operator disk_env po derived (λ c. throw (immediate_exit (pos 3))) [] [])
handle_operator-NoThrow_example =
    handle_operator-NoThrow disk_env po derived (λ c. throw (immediate_exit (pos 3))) [] []
      (λ c t. tt)

derived-Calm : Calm derived
derived-Calm = record {
  licence_check = λ t. refl;
  pre_config_hook = λ vm t. refl;
  configure_unrecognized = λ vm un t. (refl, tt);
  pre_notify_hook = λ vm t. refl;
  configure = λ vm t. refl;
}

operator_call_refused_example : NoStart [] (
    operator_call po
      (λ s. 8)
      unprivileged
      derived
      user
      5
      (lit "service.user" ∷ lit "daemon" ∷ [])
      [])
operator_call_refused_example =
    operator_call_refused unprivileged po laws (lit "daemon") derived derived-Calm (λ s. 8) user 5
      (lit "service.user" ∷ lit "daemon" ∷ []) [] refused refl (unfold lookup in refl)
