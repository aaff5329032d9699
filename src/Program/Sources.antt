-- ===== src/Program/Sources.antt =====
-- service/program.cpp, `configureImpl`: the order of the configuration files.
use libservice.Prelude.{
  Text, Bool, false, Option, none, some, List, [], ◌∷◌, ◌≡◌, refl, ap, sym, ◌∙◌,
}
use libservice.Os.{
  Env, read_config, Trace, Run, done, threw, quit, undefined, Returns, Returns-bind, Returns-next,
  ◌>>=◌, pure,
}
use libservice.Unrecognized.{ParsedOption, UnrecognizedOptions}
use libservice.Program.Options.{Po, Derived, UnrecognizedParser, unrecognized}
use libservice.Program.Files.{
  accepted, add_config, load_text, load_read, load_config, load_configs, set_up_log,
}
use libservice.Program.Configure.{
  Configured, no_options, collect_unrecognized, process_unrecognized, notify_configured, notified,
  configure_parser, after_files, keeps_unknown, files_of, with_files,
}
use libservice.Program.Stored.{StoreLaws, or_else}

or_else_assoc {ℓ} :
    {A : Type ℓ} (a b c : Option A) → or_else (or_else a b) c ≡ or_else a (or_else b c)
or_else_assoc none b c = refl
or_else_assoc (some x) b c = refl

or_else-none {ℓ} : {A : Type ℓ} (a : Option A) → or_else a none ≡ a
or_else-none none = refl
or_else-none (some x) = refl

module _ {V : Type 0} (env : Env) (po : Po V) (laws : StoreLaws po) (k : Text)
    (disk : Text → Option Text) where
  -- What a parse, the text of a file, and files one after the other say of an option: the first wins.
  abbrev pub parse_given : Option (List ParsedOption) → Option (List Text)
  parse_given none = none
  parse_given (some parsed) = laws.given k parsed

  abbrev pub text_given : Bool → Option Text → Option (List Text)
  text_given keep none = none
  text_given keep (some text) = parse_given (po.parse_file keep text)

  abbrev pub config_given : Bool → List Text → Option (List Text)
  config_given keep [] = none
  config_given keep (f ∷ fs) = or_else (text_given keep (disk f)) (config_given keep fs)

  -- The value of the option after a parse of this was stored.
  abbrev pub Gains : V → Option (List Text) → V → Type 0
  Gains vm given next = laws.value k next ≡ or_else (laws.value k vm) given

  stored-Gains :
      (parsed : List ParsedOption) (vm : V) (h : Trace)
      → Returns (λ next t. Gains vm (laws.given k parsed) next) (accepted (po.store parsed vm) h)
  stored-Gains parsed vm h = go (po.store parsed vm) refl
    where
      go :
          (r : Option V)
          → po.store parsed vm ≡ r
          → Returns (λ next t. Gains vm (laws.given k parsed) next) (accepted r h)
      go none e = tt
      go (some next) e = laws.stores k parsed vm next e

  load_text-Gains :
      (keep : Bool) (text : Text) (s : V × UnrecognizedOptions) (h : Trace)
      → Returns
          (λ r t. Gains s.0 (text_given keep (some text)) r.0)
          (load_text env po keep text s h)
  unfolding load_text
  load_text-Gains keep text s h = go (po.parse_file keep text)
    where
      go :
          (r : Option (List ParsedOption))
          → Returns {A = V × UnrecognizedOptions}
              (λ n t. Gains s.0 (parse_given r) n.0)
              ((do
                parsed ← accepted r
                vm ← accepted (po.store parsed s.0)
                un ← add_config env po keep parsed s.1
                pure (vm, un))
                h)
      go none = tt
      go (some parsed) =
          Returns-bind (λ next t. Gains s.0 (laws.given k parsed) next)
            (λ n t. Gains s.0 (laws.given k parsed) n.0) (accepted (po.store parsed s.0)) _ h
            (stored-Gains parsed s.0 h)
            (λ vm t q. Returns-next _ (add_config env po keep parsed s.1) _ t (λ un u. q))

  module _ (fixed : (t : Trace) (f : Text) → env.contents t f ≡ disk f) where
    load_read-Gains :
        (keep : Bool) (s : V × UnrecognizedOptions) (r : Option Text) (h : Trace)
        → Returns (λ n t. Gains s.0 (text_given keep r) n.0) (load_read env po keep s r h)
    unfolding load_read
    load_read-Gains keep s none h = tt
    load_read-Gains keep s (some text) h = load_text-Gains keep text s h

    load_config-Gains :
        (keep : Bool) (f : Text) (s : V × UnrecognizedOptions) (h : Trace)
        → Returns (λ n t. Gains s.0 (text_given keep (disk f)) n.0) (load_config env po keep f s h)
    unfolding load_config
    load_config-Gains keep f s h =
        rw (← fixed h f) (load_read-Gains keep s (env.contents h f) (read_config f ∷ h))

    load_configs-Gains :
        (keep : Bool) (fs : List Text) (s : V × UnrecognizedOptions) (h : Trace)
        → Returns (λ n t. Gains s.0 (config_given keep fs) n.0) (load_configs env po keep fs s h)
    unfolding load_configs
    load_configs-Gains keep [] s h = sym (or_else-none (laws.value k s.0))
    load_configs-Gains keep (f ∷ fs) s h =
        Returns-bind (λ n t. Gains s.0 (text_given keep (disk f)) n.0)
          (λ n t. Gains s.0 (config_given keep (f ∷ fs)) n.0) (load_config env po keep f s) _ h
          (load_config-Gains keep f s h)
          (λ next t q.
            later (load_configs env po keep fs next t) next.0 q (load_configs-Gains keep fs next t))
      where
        later :
            (r : Run (V × UnrecognizedOptions)) (vm : V)
            → Gains s.0 (text_given keep (disk f)) vm
            → Returns (λ n t. Gains vm (config_given keep fs) n.0) r
            → Returns (λ n t. Gains s.0 (config_given keep (f ∷ fs)) n.0) r
        later (done n t) vm q p =
            p
            ∙ ap (λ a. or_else a (config_given keep fs)) q
            ∙ or_else_assoc (laws.value k s.0) (text_given keep (disk f)) (config_given keep fs)
        later (threw e t) vm q p = tt
        later (quit c t) vm q p = tt
        later (undefined t) vm q p = tt

    notify_configured-same :
        (d : Derived V) (s : V × Option (UnrecognizedParser V)) (h : Trace)
        → Returns (λ vm t. vm ≡ s.0) (notify_configured env po d s h)
    unfolding notify_configured
    notify_configured-same d s h = Returns-next _ (d.pre_notify_hook s.0) _ h (λ a t.
        Returns-next _ (notified env po d (po.notify s.0)) _ t (λ b u.
          Returns-next _ (d.configure s.0) _ u
            (λ c w. Returns-next _ (configure_parser env po d s.1 s.0) _ w (λ e x. refl))))

    process_unrecognized-same :
        (d : Derived V) (parsed : List ParsedOption) (l : V × UnrecognizedOptions) (h : Trace)
        → unrecognized d.flags ≡ false
        → Returns (λ n t. n.0 ≡ l.0) (process_unrecognized env po d parsed l h)
    unfolding process_unrecognized collect_unrecognized
    process_unrecognized-same d parsed l h off = rw off refl

    after_files-Gains :
        (d : Derived V) (parsed : List ParsedOption) (fs : List Text) (l : V × UnrecognizedOptions)
        (vm : V) (given : Option (List Text)) (h : Trace)
        → unrecognized d.flags ≡ false
        → Gains vm given l.0
        → Returns
            (λ c t. Gains vm given c.vm × (c.config_files ≡ fs))
            (after_files env po d parsed fs l h)
    unfolding after_files
    after_files-Gains d parsed fs l vm given h off q =
        Returns-next _ (set_up_log env po l.0) _ h (λ log t.
          Returns-bind (λ n t. n.0 ≡ l.0) _ (process_unrecognized env po d parsed l) _ t
            (process_unrecognized-same d parsed l t off)
            (λ n u e.
              Returns-bind (λ w x. w ≡ n.0) _ (notify_configured env po d n) _ u
                (notify_configured-same d n u) (λ w x e'. (rw (e' ∙ e) q, refl))))

    -- Where the program collects no unknown options and files do not change under it, each option
    -- has in the end, when the configuration returns, the value that the command line and the response
    -- files gave it, or else the value of the first configuration file in the list that has it.
    pub with_files-Gains :
        (d : Derived V) (s : V × List ParsedOption) (h : Trace)
        → unrecognized d.flags ≡ false
        → Returns
            (λ c t.
              Gains s.0 (config_given (keeps_unknown env po d) c.config_files) c.vm
              × (c.config_files ≡ files_of env po d s.0))
            (with_files env po d s h)
    unfolding with_files
    with_files-Gains d s h off =
        Returns-bind
          (λ l t. Gains s.0 (config_given (keeps_unknown env po d) (files_of env po d s.0)) l.0) _
          (load_configs env po (keeps_unknown env po d) (files_of env po d s.0) (s.0, no_options)) _
          h (load_configs-Gains _ _ _ h)
          (λ l t q.
            onwards (after_files env po d s.1 (files_of env po d s.0) l t)
              (after_files-Gains d s.1 (files_of env po d s.0) l s.0 _ t off q))
      where
        onwards :
            (r : Run (Configured V))
            → Returns
                (λ c t.
                  Gains s.0 (config_given (keeps_unknown env po d) (files_of env po d s.0)) c.vm
                  × (c.config_files ≡ files_of env po d s.0))
                r
            → Returns
                (λ c t.
                  Gains s.0 (config_given (keeps_unknown env po d) c.config_files) c.vm
                  × (c.config_files ≡ files_of env po d s.0))
                r
        onwards (done c t) p = (rw p.1 p.0, p.1)
        onwards (threw e t) p = tt
        onwards (quit c t) p = tt
        onwards (undefined t) p = tt
