-- ===== src/SignalHandler.antt =====
-- service/detail/signalhandler.{hpp,cpp}, `SignalHandler`: signals, shared termination and event
-- counters, and the control acceptor of one process of the service.
pub mod Termination
pub mod Main
pub mod Waits
pub mod System
pub mod Refinement
pub mod LogRotation
pub mod Runnable
use libservice.Prelude.{
  ℕ, suc, ◌+◌, ◌-◌, ◌%◌, ◌^◌, Text, Bool, true, false, not, ◌&&◌, ◌||◌, Option, none, some, List,
  [], ◌∷◌, ◌++◌, ◌==◌, if◌then◌else◌,
}
use libservice.Terminator
use libservice.Terminator.{Table}

abbrev pub sighup : ℕ
sighup = 1

abbrev pub sigint : ℕ
sigint = 2

abbrev pub sigusr1 : ℕ
sigusr1 = 10

abbrev pub sigterm : ℕ
sigterm = 15

-- A `std::uint64_t` wraps round.
abbrev pub u64 : ℕ → ℕ
u64 n = n % 2 ^ 64

-- What lies in the shared memory, one for all processes.
pub record Shared : Type 0 where
  pub terminator : Table
  pub terminated : Bool
  pub log_rotate_event : ℕ
  pub stat_event : ℕ

-- What each process has for itself. `waits` and `accepts` count the asynchronous waits in flight.
pub record Local : Type 0 where
  pub pid : ℕ
  pub main_pid : ℕ
  pub this_terminated : Bool
  pub last_log_rotate_event : ℕ
  pub last_stat_event : ℕ
  pub signals : List ℕ
  pub user_registered_signals : List ℕ
  pub waits : ℕ
  pub ctrl_path : Option Text
  pub ctrl_is_open : Bool
  pub accepts : ℕ

pub record Handler : Type 0 where
  pub shared : Shared
  pub local : Local

-- What the handler calls in the service that owns it.
pub data OwnerCall : Type 0 where
  log_rotate process_stat : OwnerCall
  signal : ℕ → OwnerCall

pub data ErrorCode : Type 0 where
  operation_aborted other_error : ErrorCode

-- What `io_service::poll` may find to run: a signal or an accepted connection, each with the error
-- that came with it, or the registration of a signal that `registerSignal` posted.
pub data Event : Type 0 where
  signalled : Option ErrorCode → ℕ → Event
  accepted : Option ErrorCode → Event
  posted : ℕ → Event

pub data ForkEvent : Type 0 where
  prepare parent child : ForkEvent

abbrev pub member : ℕ → List ℕ → Bool
member n [] = false
member n (m ∷ ms) = (m == n) || member n ms

abbrev pub with_shared : Handler → Shared → Handler
with_shared h s = record h { shared = s }

abbrev pub with_local : Handler → Local → Handler
with_local h l = record h { local = l }

-- The constructor, over fresh shared memory.
pub init : ℕ → Option Text → Handler
init main_pid ctrl_path = record {
  shared = record {
    terminator = Terminator.init 32;
    terminated = false;
    log_rotate_event = 0;
    stat_event = 0;
  };
  local = record {
    pid = main_pid;
    main_pid = main_pid;
    this_terminated = false;
    last_log_rotate_event = 0;
    last_stat_event = 0;
    signals = sigusr1 ∷ sigterm ∷ sigint ∷ sighup ∷ [];
    user_registered_signals = [];
    waits = 0;
    ctrl_path = ctrl_path;
    ctrl_is_open = elim ctrl_path [ none ↦ false | some p ↦ true ];
    accepts = 0;
  };
}

-- `~SignalHandler`: the control socket to remove.
pub destroy : Handler → Option Text
destroy h = if h.local.pid == h.local.main_pid then h.local.ctrl_path else none

pub terminate : Handler → Handler
terminate h = with_shared h (record (h.shared) { terminated = true })

pub schedule_log_rotate : Handler → Handler
schedule_log_rotate h =
    with_shared h (record (h.shared) { log_rotate_event = u64 (h.shared.log_rotate_event + 1) })

pub schedule_stat : Handler → Handler
schedule_stat h = with_shared h (record (h.shared) { stat_event = u64 (h.shared.stat_event + 1) })

pub global_terminate : Bool → ℕ → Handler → Handler
global_terminate true pid h =
    with_shared h
      (record (h.shared) { terminator = (Terminator.add h.local.pid pid h.shared.terminator).0 })
global_terminate false pid h =
    with_shared h
      (record (h.shared) { terminator = Terminator.remove h.local.pid pid h.shared.terminator })

pub start_signals : Handler → Handler
start_signals h = with_local h (record (h.local) { waits = h.local.waits + 1 })

pub start_accept : Handler → Handler
start_accept h =
    if h.local.ctrl_is_open
    then with_local h (record (h.local) { accepts = h.local.accepts + 1 })
    else h

pub stop_accept : Handler → Handler
stop_accept h =
    if h.local.ctrl_is_open then with_local h (record (h.local) { ctrl_is_open = false }) else h

pub start : Handler → Handler
unfolding start_signals start_accept
start h = start_accept (start_signals h)

-- The waits that `stop` cancels end later, as events with `operation_aborted`.
pub stop : Handler → Handler
unfolding stop_accept
stop h = stop_accept h

pub mark_terminated : Handler → Handler
mark_terminated h =
    let marked : Handler = with_local h (record (h.local) { this_terminated = true }) in
    if Terminator.find h.local.pid h.shared.terminator
    then with_shared marked (record (h.shared) { terminated = true })
    else marked

-- The `switch` over the signal.
pub switch_signal : ℕ → Handler → Handler
unfolding mark_terminated schedule_log_rotate schedule_stat
switch_signal signo h =
    if signo == sigterm || signo == sigint
    then mark_terminated h
    else (if signo == sighup
        then schedule_log_rotate h
        else (if signo == sigusr1 then schedule_stat h else h))

pub notify_owner : ℕ → Handler → List OwnerCall
notify_owner signo h =
    if member signo h.local.user_registered_signals then signal signo ∷ [] else []

-- `signal` once an error has been looked at.
pub handle_signal : ℕ → Handler → Handler × List OwnerCall
unfolding switch_signal notify_owner start_signals
handle_signal signo h =
    let switched = switch_signal signo h in
    if signo == 0
    then (start_signals h, [])
    else (start_signals switched, notify_owner signo switched)

-- `signal`: an error other than an abort starts a wait and goes on into the code for a signal.
pub on_signal : Option ErrorCode → ℕ → Handler → Handler × List OwnerCall
unfolding handle_signal start_signals
on_signal none signo h = handle_signal signo h
on_signal (some operation_aborted) signo h = (h, [])
on_signal (some other_error) signo h = handle_signal signo (start_signals h)

-- `newCtrlConnection`: accept the next one unless the acceptor was closed.
pub on_accept : Option ErrorCode → Handler → Handler
unfolding start_accept
on_accept none h = start_accept h
on_accept (some operation_aborted) h = h
on_accept (some other_error) h = start_accept h

-- The function that `registerSignal` posts.
pub on_posted : ℕ → Handler → Handler
on_posted signo h = with_local h (record (h.local) {
  signals = signo ∷ h.local.signals;
  user_registered_signals = signo ∷ h.local.user_registered_signals;
})

abbrev pub took_wait : Handler → Handler
took_wait h = with_local h (record (h.local) { waits = h.local.waits - 1 })

abbrev pub took_accept : Handler → Handler
took_accept h = with_local h (record (h.local) { accepts = h.local.accepts - 1 })

-- One ready event: the wait that it ends is over, and its function runs.
pub run_event : Event → Handler → Handler × List OwnerCall
unfolding on_signal on_accept on_posted
run_event (signalled e signo) h = on_signal e signo (took_wait h)
run_event (accepted e) h = (on_accept e (took_accept h), [])
run_event (posted signo) h = (on_posted signo h, [])

-- `ios_.poll()`: the events that are ready, in their order.
pub poll : List Event → Handler → Handler × List OwnerCall
poll [] h = (h, [])
poll (e ∷ es) h = let one = run_event e h in let rest = poll es one.0 in (rest.0, one.1 ++ rest.1)

pub check_log_rotate : Handler → Handler × List OwnerCall
check_log_rotate h =
    let value : ℕ = h.shared.log_rotate_event in
    if value == h.local.last_log_rotate_event
    then (h, [])
    else (with_local h (record (h.local) { last_log_rotate_event = value }), log_rotate ∷ [])

-- Statistics are for the main process alone.
pub check_stat : Handler → Handler × List OwnerCall
check_stat h =
    let value : ℕ = h.shared.stat_event in
    if not (value == h.local.last_stat_event) && (h.local.pid == h.local.main_pid)
    then (with_local h (record (h.local) { last_stat_event = value }), process_stat ∷ [])
    else (h, [])

abbrev pub must_terminate : Handler → Bool
must_terminate h = h.shared.terminated || h.local.this_terminated

-- What `process` leaves: the handler, the calls to the owner in their order, and the answer.
pub record Processed : Type 0 where
  pub handler : Handler
  pub calls : List OwnerCall
  pub terminated : Bool

pub process : List Event → Handler → Processed
unfolding check_log_rotate check_stat
process es h =
    let polled = poll es h in
    let rotated = check_log_rotate polled.0 in
    let counted = check_stat rotated.0 in
    record {
      handler = counted.0;
      calls = polled.1 ++ (rotated.1 ++ counted.1);
      terminated = must_terminate counted.0;
    }

-- `atFork`: a child neither listens nor accepts.
pub at_fork : ForkEvent → Handler → Handler
unfolding stop_accept
at_fork prepare h = h
at_fork parent h = h
at_fork child h = stop_accept h
