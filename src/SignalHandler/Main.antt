-- ===== src/SignalHandler/Main.antt =====
-- service/detail/signalhandler.cpp: what is left to the main process of a service.
use libservice.Prelude.{true, false, List, [], ◌∷◌, ◌++◌, ◌≡◌, arith, All}
use libservice.SignalHandler.{
  Local, Handler, Event, process, terminate, global_terminate, schedule_log_rotate, start, stop,
  run_event, poll, at_fork,
}
use libservice.SignalHandler.System.{
  System, Act, processes, sets_global, act, Step, acts, forks, Reach, here, next, handler,
}

-- A process that listens for control connections is the main process.
abbrev pub IsMainOnly : Local → Type 0
IsMainOnly l = l.ctrl_is_open ≡ true → l.pid ≡ l.main_pid

pub record Kept (h g : Handler) : Type 0 where
  open_before : g.local.ctrl_is_open ≡ true → h.local.ctrl_is_open ≡ true
  same_pid : g.local.pid ≡ h.local.pid
  same_main : g.local.main_pid ≡ h.local.main_pid

run_event-Kept : (e : Event) (h : Handler) → Kept h (run_event e h).0
unfolding run_event
run_event-Kept e h = ground arith

poll-Kept : (es : List Event) (h : Handler) → Kept h (poll es h).0
unfolding poll
poll-Kept [] h = ground arith
poll-Kept (e ∷ es) h = ground (arith, run_event-Kept e h, poll-Kept es (run_event e h).0)

process-Kept : (es : List Event) (h : Handler) → Kept h (process es h).handler
unfolding process
process-Kept es h = ground (arith, poll-Kept es h)

act-Kept : (a : Act) (h : Handler) → Kept h (act a h)
unfolding act terminate global_terminate schedule_log_rotate start stop
act-Kept (processes es) h = process-Kept es h
act-Kept (sets_global true pid) h = ground arith
act-Kept (sets_global false pid) h = ground arith
act-Kept a h = ground arith

module _ (P : Local → Type 0) where
  pub All_head : (before after : List Local) (l : Local) → All P (before ++ (l ∷ after)) → P l
  All_head [] after l h = h.0
  All_head (b ∷ before) after l h = All_head before after l h.1

  pub All-replace :
      (before after rest : List Local) (l : Local)
      → All P (before ++ (l ∷ after))
      → (All P after → All P rest)
      → All P (before ++ rest)
  All-replace [] after rest l h f = f h.1
  All-replace (b ∷ before) after rest l h f = (h.0, All-replace before after rest l h.1 f)

Step-IsMainOnly :
    {s t : System} → Step s t → All IsMainOnly s.processes → All IsMainOnly t.processes
unfolding at_fork
Step-IsMainOnly {s} {t} (acts before after l a p q r) h =
    let old : All IsMainOnly (before ++ (l ∷ after)) = rw p at h in
    rw r (
      All-replace IsMainOnly before after _ l old (λ rest. (
        ground (arith, act-Kept a (handler s.shared l), All_head IsMainOnly before after l old),
        rest,
      )))
Step-IsMainOnly {s} {t} (forks before after l pid nonzero n p q r) h =
    let old : All IsMainOnly (before ++ (l ∷ after)) = rw p at h in
    rw r (
      All-replace IsMainOnly before after _ l old
        (λ rest. (All_head IsMainOnly before after l old, (ground arith, rest))))

-- However the processes act and fork, no process but the main one ever listens for control
-- connections.
pub Reach-IsMainOnly :
    {s t : System} → Reach s t → All IsMainOnly s.processes → All IsMainOnly t.processes
Reach-IsMainOnly here h = h
Reach-IsMainOnly (next r st) h = Step-IsMainOnly st (Reach-IsMainOnly r h)
