-- ===== src/Tests/Control.antt =====
-- The control interface at concrete inputs. `lines_of` stands in for `split` of Boost, and `prefixed`
-- for its `starts_with`.
use libservice.Prelude.{
  ℕ, suc, Text, lit, Bool, true, false, ◌&&◌, none, some, List, [], ◌∷◌, ◌++◌, ◌==◌, ◌≡◌, refl,
  arith, if◌then◌else◌,
}
use libservice.SignalHandler.{Handler, init}
use libservice.Ctrl.{Strings, StringLaws, Without, newline}
use libservice.Ctrl.Server.{
  Owner, Written, wrote, command_error, Connection, process_ctrl, dispatch_ctrl,
}
use libservice.Ctrl.Client.{Answer, lines}
use libservice.Ctrl.Client
use libservice.Ctrl.Lines.{error_line}
use libservice.Ctrl.RoundTrip.{exchange, served, exchange-lines, exchange-late_error}

abbrev cons_line : ℕ → List Text → List Text
cons_line c [] = (c ∷ []) ∷ []
cons_line c (l ∷ ls) = (c ∷ l) ∷ ls

lines_of : Text → List Text
lines_of [] = [] ∷ []
lines_of (c ∷ s) = let rest = lines_of s in if c == newline then [] ∷ rest else cons_line c rest

prefixed : Text → Text → Bool
prefixed s [] = true
prefixed [] (c ∷ p) = false
prefixed (d ∷ s) (c ∷ p) = (d == c) && prefixed s p

abbrev strings : Strings
strings = record { split_lines = lines_of; starts_with = prefixed; split_words = λ s. s ∷ [] }

lines_of-last : (s : Text) → Without newline s → lines_of s ≡ s ∷ []
unfolding lines_of
lines_of-last [] h = refl
lines_of-last (c ∷ s) h = ground (arith, lines_of-last s h.1)

lines_of-next : (s t : Text) → Without newline s → lines_of (s ++ newline ∷ t) ≡ s ∷ lines_of t
unfolding lines_of
lines_of-next [] t h = refl
lines_of-next (c ∷ s) t h = ground (arith, lines_of-next s t h.1)

prefixed-append : (p s : Text) → prefixed (p ++ s) p ≡ true
unfolding prefixed
prefixed-append [] s = refl
prefixed-append (c ∷ p) s = ground (arith, prefixed-append p s)

prefixed_only : (s p : Text) → prefixed s p ≡ true → (t : Text) × (s ≡ p ++ t)
unfolding prefixed
prefixed_only s [] h = (s, refl)
prefixed_only [] (c ∷ p) h = cc
prefixed_only (d ∷ s) (c ∷ p) h = let (t, e) = prefixed_only s p (ground arith) in (t, ground arith)

abbrev laws : StringLaws strings
laws = record {
  split_last = lines_of-last;
  split_next = lines_of-next;
  starts = prefixed-append;
  starts_only = prefixed_only;
}

abbrev answering : Written → Owner
answering w = record { ctrl = λ cmd. w; stat = wrote []; monitor = wrote [] }

abbrev fresh : Handler
fresh = init 7 none

abbrev plain : Written
plain = wrote (lit "one\ntwo\n")

abbrev failing : Written
failing = record {
  acts = λ h. h;
  text = [];
  thrown = some (command_error (lit "bad"));
  answer = false;
}

abbrev failing_late : Written
failing_late = record {
  acts = λ h. h;
  text = lit "one\n";
  thrown = some (command_error (lit "bad"));
  answer = false;
}

exchange-lines_example :
    (exchange strings laws
        (answering plain)
        fresh
        (lit "list")
        (lit "list")
        []
        (lit "ctl")
        (lit "exit\n")
        []
      ≡ some (lines (lit "one" ∷ lit "two" ∷ []), []))
    × ((served strings laws
          (answering plain)
          fresh
          (lit "list")
          (lit "list")
          []
          (lit "exit\n")).connection.input
        ≡ lit "exit\n")
exchange-lines_example =
    exchange-lines strings laws (answering plain) fresh (lit "list") (lit "list") [] (lit "ctl")
      (lit "exit\n") [] (lit "one" ∷ lit "two" ∷ []) (λ h. h) (ground arith, refl, refl)
      (unfold process_ctrl dispatch_ctrl in refl) (ground arith) (unfold prefixed in refl)

exchange-late_error_example :
    exchange strings laws
      (answering failing_late)
      fresh
      (lit "list")
      (lit "list")
      []
      (lit "ctl")
      []
      []
    ≡ some (lines (lit "one" ∷ error_line (lit "bad") ∷ []), [])
exchange-late_error_example =
    exchange-late_error strings laws (answering failing_late) fresh (lit "list") (lit "list") []
      (lit "ctl") [] [] (lit "one") (lit "bad") (λ h. h) (ground arith, refl, refl)
      (unfold process_ctrl dispatch_ctrl in refl) (ground arith) (ground arith)
      (unfold prefixed in refl)

abbrev asking : Connection
asking = record { input = lit "!terminate\n"; closed = false }

-- A service that knows no command.
abbrev refusing : Written
refusing = record { acts = λ h. h; text = []; thrown = none; answer = false }

-- A server that has nothing to say.
abbrev silent : Text → ℕ → Text × ℕ
silent command c = ([], suc c)
