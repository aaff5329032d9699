-- ===== src/Ctrl/RoundTrip.antt =====
-- The control interface end to end: `CtrlClient::command` of service/detail/ctrlclient.hpp over the
-- replies of `CtrlConnection::lineRead` in service/detail/signalhandler.cpp.
use mathlib.Core.List.{append_assoc}
use libservice.Prelude.{
  Text, lit, true, false, Option, none, some, List, [], ◌∷◌, ◌++◌, ◌≡◌, refl, ap, ◌∙◌, arith, All,
  Bool-cases, inl, inr,
}
use libservice.SignalHandler.{Handler}
use libservice.Ctrl.{Strings, StringLaws, Without, getline-append, newline, end_of_block}
use libservice.Ctrl.Server.{
  Owner, command_error, Served, execute, process_ctrl, reply_text, run_words, line_read,
}
use libservice.Ctrl.Client.{
  Answer, lines, request, interpret, command_reply, drop_last_empty, drop_7,
}
use libservice.Ctrl.Client
use libservice.Ctrl.Lines.{
  unlines, IsLine, unlines-Without, is_service_command, deliver, error_line, IsLine-append,
  error_line-IsLine, plain_text, error_reply,
}

module _ (lib : Strings) (laws : StringLaws lib) where
  split-unlines : (ls : List Text) → All IsLine ls → lib.split_lines (unlines ls) ≡ ls ++ [] ∷ []
  split-unlines [] h = laws.split_last [] tt
  split-unlines (l ∷ ls) h =
      laws.split_next l (unlines ls) h.0.0 ∙ ap (◌∷◌ l) (split-unlines ls h.1)

  drop_last-append : (ls : List Text) → drop_last_empty (ls ++ [] ∷ []) ≡ ls
  unfolding drop_last_empty
  drop_last-append [] = refl
  drop_last-append (l ∷ []) = refl
  drop_last-append (l ∷ m ∷ ms) = ap (◌∷◌ l) (drop_last-append (m ∷ ms))

  -- No reported error: the first line does not begin as one.
  abbrev pub NoError : List Text → Type 0
  NoError [] = Unit {0}
  NoError (l ∷ ls) = lib.starts_with l (lit "error: ") ≡ false

  empty_no_error : lib.starts_with [] (lit "error: ") ≡ false
  empty_no_error = elim (Bool-cases (lib.starts_with [] (lit "error: "))) [
    | inl e ↦ cc (laws.starts_only [] (lit "error: ") e).1
    | inr e ↦ e
  ]

  interpret-lines :
      (name : Text) (ls : List Text) → NoError ls → interpret lib name (ls ++ [] ∷ []) ≡ lines ls
  unfolding interpret
  interpret-lines name [] h = rw empty_no_error (ap lines (drop_last-append []))
  interpret-lines name (l ∷ ls) h = rw h (ap lines (drop_last-append (l ∷ ls)))

  -- The client reads lines back from a block of them, and leaves what follows the block.
  pub command_reply-unlines :
      (name : Text) (ls : List Text) (tail : Text)
      → All IsLine ls
      → NoError ls
      → command_reply lib name (some (unlines ls ++ end_of_block ∷ tail)) ≡ (lines ls, tail)
  unfolding command_reply
  command_reply-unlines name ls tail h k = rw (
    getline-append end_of_block (unlines ls) tail (unlines-Without ls h),
    split-unlines ls h,
    interpret-lines name ls k,
  )

  -- A reply of one line that begins as an error is taken as one.
  pub command_reply-reported :
      (name what tail : Text)
      → IsLine what
      → command_reply lib name
          (some (unlines ((lit "error: " ++ what) ∷ []) ++ end_of_block ∷ tail))
        ≡ (Client.command_error name what, tail)
  unfolding command_reply interpret
  command_reply-reported name what tail h =
      let line : Text = lit "error: " ++ what in
      let one : All IsLine (line ∷ []) =
        (IsLine-append (lit "error: ") what (ground arith) h, tt) in
      rw (
        getline-append end_of_block (unlines (line ∷ [])) tail (unlines-Without (line ∷ []) one),
        split-unlines (line ∷ []) one,
        laws.starts (lit "error: ") what,
      )

  command_reply-error :
      (name what tail : Text)
      → IsLine what
      → command_reply lib name (some (unlines (error_line what ∷ []) ++ end_of_block ∷ tail))
        ≡ (Client.command_error name (what ++ lit " "), tail)
  command_reply-error name what tail h =
      command_reply-reported name (what ++ lit " ") tail
        (IsLine-append what (lit " ") h (ground arith))

  -- A command of the service, its words, and what the service answers to it.
  module _ (owner : Owner) (h : Handler) (command front : Text) (args : List Text) where
    abbrev pub Asks : Type 0
    Asks =
        Without newline command
        × (lib.split_words command ≡ front ∷ args)
        × (is_service_command front ≡ true)

    abbrev pub served : Text → Served
    served more =
        line_read lib owner none h (record { input = request command ++ more; closed = false })

    line_read-reply :
        (more : Text)
        → Asks
        → (served more).reply
          ≡ some (
              reply_text (process_ctrl owner (record { cmd = front; args = args }))
              ++ end_of_block ∷ [])
    unfolding line_read run_words execute
    line_read-reply more (plain, words, service) =
        rw
          (
            append_assoc command (newline ∷ []) more,
            getline-append newline command more plain,
            words,
            run_words,
          )
          (ground arith)

    pub served-rest : (more : Text) → Asks → (served more).connection.input ≡ more
    unfolding line_read run_words
    served-rest more (plain, words, service) =
        rw
          (
            append_assoc command (newline ∷ []) more,
            getline-append newline command more plain,
            words,
            run_words,
          )
          (ground arith)

    -- The exchange: the request is written, one line of it is read, and the reply comes back.
    abbrev pub exchange : Text → Text → Text → Option (Answer × Text)
    exchange name more tail = deliver lib name tail (served more).reply

    pub exchange-reply :
        (name more tail body : Text)
        → Asks
        → reply_text (process_ctrl owner (record { cmd = front; args = args })) ≡ body
        → exchange name more tail
          ≡ some (command_reply lib name (some (body ++ end_of_block ∷ tail)))
    exchange-reply name more tail body asks e =
        ap (deliver lib name tail)
          (line_read-reply more asks ∙ ap (λ b. some (b ++ end_of_block ∷ [])) e)
        ∙ ap (λ b. some (command_reply lib name (some b)))
            (append_assoc body (end_of_block ∷ []) tail)

    -- A command whose answer the service writes as lines, the first of which does not begin as an
    -- error, comes back as those lines, and both buffers, the server's and the client's, keep what
    -- belongs to the next exchange.
    pub exchange-lines :
        (name more tail : Text) (ls : List Text) (acts : Handler → Handler)
        → Asks
        → process_ctrl owner (record { cmd = front; args = args })
          ≡ record { acts = acts; text = unlines ls; thrown = none; answer = true }
        → All IsLine ls
        → NoError ls
        → (exchange name more tail ≡ some (lines ls, tail))
          × ((served more).connection.input ≡ more)
    exchange-lines name more tail ls acts asks answered h k = (
      exchange-reply name more tail (unlines ls) asks
            (ap reply_text answered ∙ plain_text acts (unlines ls))
          ∙ ap some (command_reply-unlines name ls tail h k),
      served-rest more asks,
    )

    -- A `CtrlCommandError` thrown before anything was written reaches the caller as an exception, with
    -- a space added to its text.
    exchange-error :
        (name more tail what : Text) (acts : Handler → Handler)
        → Asks
        → process_ctrl owner (record { cmd = front; args = args })
          ≡ record { acts = acts; text = []; thrown = some (command_error what); answer = false }
        → IsLine what
        → exchange name more tail ≡ some (Client.command_error name (what ++ lit " "), tail)
    exchange-error name more tail what acts asks answered h =
        exchange-reply name more tail (unlines (error_line what ∷ [])) asks
          (ap reply_text answered ∙ error_reply acts [] what)
        ∙ ap some (command_reply-error name what tail h)

    -- When a command writes one line, which does not begin as an error itself, and then throws a
    -- `CtrlCommandError`, the exception is lost: the caller gets the line, and the error as one more
    -- line.
    pub exchange-late_error :
        (name more tail line what : Text) (acts : Handler → Handler)
        → Asks
        → process_ctrl owner (record { cmd = front; args = args }) ≡ record {
          acts = acts;
          text = unlines (line ∷ []);
          thrown = some (command_error what);
          answer = false;
        }
        → IsLine line
        → IsLine what
        → lib.starts_with line (lit "error: ") ≡ false
        → exchange name more tail ≡ some (lines (line ∷ error_line what ∷ []), tail)
    exchange-late_error name more tail line what acts asks answered h k first =
        exchange-reply name more tail (unlines (line ∷ error_line what ∷ [])) asks (
          ap reply_text answered
          ∙ error_reply acts (unlines (line ∷ [])) what
          ∙ append_assoc line (newline ∷ []) (unlines (error_line what ∷ [])))
        ∙ ap some (
            command_reply-unlines name (line ∷ error_line what ∷ []) tail
              (h, (error_line-IsLine what k, tt)) first)
