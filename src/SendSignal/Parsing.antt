-- ===== src/SendSignal/Parsing.antt =====
-- service/service.cpp, `parseSigDef`: what each argument of `--signal` means.
use libservice.Prelude.{
  ℕ, ℤ, negsuc, Text, lit, text_eq, Bool, false, Option, none, some, [], ◌∷◌, ◌++◌, ◌≡◌, ◌||◌, ◌∙◌,
  sym, refl, arith, All, ◌==◌,
}
use libservice.Os.{Env, Trace, ◌>>=◌, pure}
use libservice.SendSignal.{split_slash, signo_of, parse_sig_def, send_signal, process_status}

abbrev pub NoSlash : Text → Type 0
NoSlash = All (λ c. (c == b'/') ≡ false)

split_slash_plain : (s : Text) → NoSlash s → split_slash s ≡ (s, none)
unfolding split_slash
split_slash_plain [] h = refl
split_slash_plain (c ∷ s) h = ground (arith, split_slash_plain s h.1)

split_slash_append : (s t : Text) → NoSlash s → split_slash (s ++ b'/' ∷ t) ≡ (s, some t)
unfolding split_slash
split_slash_append [] t h = refl
split_slash_append (c ∷ s) t h = ground (arith, split_slash_append s t h.1)

-- The names that `parseSigDef` knows.
abbrev pub is_known : Text → Bool
is_known s =
    text_eq s (lit "stop")
    || text_eq s (lit "logrotate")
    || text_eq s (lit "status")
    || text_eq s (lit "stat")

status_signo : signo_of (split_slash (lit "status")).0 ≡ 0
unfolding signo_of split_slash
status_signo = refl

signo_of_unknown : (s : Text) → is_known s ≡ false → signo_of s ≡ 0
unfolding signo_of
signo_of_unknown s h = ground arith

-- A command whose number is 0 asks for the status.
probe_is_status :
    (env : Env) (fuel : ℕ) (path arg : Text) (h : Trace)
    → signo_of (split_slash arg).0 ≡ 0
    → send_signal env fuel path arg h ≡ (do c ← process_status env path 0; pure (some c)) h
unfolding send_signal
probe_is_status env fuel path arg h e = rw (e, send_signal)

-- An unrecognized signal is not refused: the command answers as `--signal status` does, whatever
-- follows a slash.
pub unrecognized_is_status :
    (env : Env) (fuel : ℕ) (path name rest : Text) (h : Trace)
    → NoSlash name
    → is_known name ≡ false
    → (send_signal env fuel path name h ≡ send_signal env fuel path (lit "status") h)
      × (send_signal env fuel path (name ++ b'/' ∷ rest) h
          ≡ send_signal env fuel path (lit "status") h)
unrecognized_is_status env fuel path name rest h plain unknown = (
  probe_is_status env fuel path name h (rw (split_slash_plain name plain) zero_signo) ∙ sym probed,
  probe_is_status env fuel path (name ++ b'/' ∷ rest) h
        (rw (split_slash_append name rest plain) zero_signo)
      ∙ sym probed,
)
  where
    zero_signo : signo_of name ≡ 0
    zero_signo = signo_of_unknown name unknown

    probed :
        send_signal env fuel path (lit "status") h
        ≡ (do c ← process_status env path 0; pure (some c)) h
    probed = probe_is_status env fuel path (lit "status") h status_signo

abbrev pub or_none : Option ℤ → ℤ
or_none none = negsuc 0
or_none (some n) = n

-- What `parseSigDef` makes of each form of argument that it knows: the number of the signal, and a
-- timeout for `stop` alone, -1 standing for none and for text that is no number.
pub parse_sig_def-known :
    (env : Env) (t : Text)
    → (parse_sig_def env (lit "stop")
        ≡ record { name = lit "stop"; signo = 15; timeout = negsuc 0 })
      × (parse_sig_def env (lit "stop/" ++ t)
          ≡ record { name = lit "stop"; signo = 15; timeout = or_none (env.cast_time t) })
      × (parse_sig_def env (lit "logrotate/" ++ t)
          ≡ record { name = lit "logrotate"; signo = 1; timeout = negsuc 0 })
      × (parse_sig_def env (lit "stat/" ++ t)
          ≡ record { name = lit "stat"; signo = 10; timeout = negsuc 0 })
      × (parse_sig_def env (lit "status/" ++ t)
          ≡ record { name = lit "status"; signo = 0; timeout = negsuc 0 })
unfolding parse_sig_def split_slash
parse_sig_def-known env t = (refl, ground arith, refl, refl, refl)
