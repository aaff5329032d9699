-- ===== src/Lib.antt =====
-- A verification library for libservice: the program that runs as a service, from its options to
-- its end, with its pid file, its signals, its control socket and its background processes.
--
-- How the parts stand together. `Service::operator()` (service/service.cpp) configures the program,
-- goes to the background, takes the pid file (service/pidfile.cpp), makes the signal handler
-- (service/detail/signalhandler.cpp), changes the user, and calls the service's own `start` and `run`.
-- While it runs, `isRunning` polls the handler. A second instance of the program with `--signal` looks
-- into the pid file and signals the first; a control client (service/detail/ctrlclient.hpp) sends it
-- commands over a local socket.
--
-- Which file models what, with the source's names in snake_case:
--   Prelude          lists, texts of bytes, signed integers and Boolean tests over the native numbers
--   Os               what the operating system answers, and the monad of the runs: a value, an
--                    exception, `_exit`, or undefined behaviour, with the trace of the calls
--   Allocator        service/detail/signalhandler.hpp, `Allocator`, and the layout of its memory
--   Terminator       service/detail/signalhandler.hpp, `Terminator`
--   SignalHandler    service/detail/signalhandler.cpp, `SignalHandler`; its child System has several
--                    processes over one shared memory, Refinement what that memory promises, and
--                    Runnable `stop`, `isRunning` and their like of service/service.cpp
--   Ctrl             Server: `CtrlConnection::lineRead`, and `Service::processCtrl`; Client:
--                    `CtrlClient::command`
--   NetClient        service/ctrlhandshake.cpp, service/netctrlclient.cpp, service/ctrlclient.cpp and
--                    service/detail/ctrlclient.cpp: the network client and the choice of a client
--   CtrlTool         service/tools/ctrlclient.cpp and service/tools/netctrlclient.cpp; its child Main,
--                    the tools from their arguments
--   PidFile          service/pidfile.cpp; its children World, Instances, Takeover and Delivery have
--                    several processes over one file system, and what its documentation promises of
--                    locks; Held reads off a trace who has the pid file
--   SendSignal       service/service.cpp, `parseSigDef` to `sendSignal`, and `preConfigHook`
--   Persona          service/service.cpp, `switchPersona` and `loginEnv`; its child Elevation,
--                    service/persona.hpp, `runElevated`
--   Daemon           service/service.cpp, the daemonization
--   Service          service/service.cpp, `operator()`; its children: Settings, its options and the
--                    call with arguments; Reports, `processMonitor`, `logRotate` and the functions of
--                    a service that overrides none; Signalled, a call with `--signal`; Prepared,
--                    what is done before a start; Success, a service that comes up; Refusals, a service
--                    that cannot become its user
--   Program          service/program.cpp, `configureImpl`: version, licence and help; its children:
--                    Options, the parsers and what is taken from Boost.Program_options; Files, response
--                    files, configuration files and the log; Configure, all of it in order;
--                    Defaults, the functions that a program may leave as they are; Declarations and
--                    Accepted, the options; Locale, the constructor; Starting, Stopping and
--                    Quietness, what a configuration does not do
--   Unrecognized     service/program.cpp, `UnrecognizedOptions`: undeclared options of the configuration
--                    files
--   Cmdline          service/cmdline.cpp
--   Verbosity        service/verbosity.hpp
--   ConfigFile       service/config.hpp
--   Running          service/runninguntilsignalled.cpp
--   PipeNotifier     service/pipenotifier.cpp
--   Licence          service/customer/program.none.cpp and its like
--   Tests            concrete inputs
--
-- A call to the system or to a virtual function of the service is a constructor of `Call`. A run appends
-- its calls to a trace, newest first, and each answer is a function of the trace: an environment is a
-- parameter, and may answer in any way that the past allows. The log is left out: its messages decide
-- nothing, except for the calls that redirect it. An allocation that fails is not modelled.
--
-- Loops that wait, for a process to stop, for a pid file, for a child, run on fuel, and give `none` or
-- `false` when it is used up. A theorem about them takes any fuel above the number of sleeps, or of
-- reads, after which the clock is past the deadline or the data are read; the loop tests the clock once
-- for each sleep, so that this is enough.
--
-- The event loop of Boost.Asio is a list of the events that are ready, in any order; a shared memory
-- operation is one step, as the mutex and the atomics make it. `fork` gives one process of a run: the
-- other processes are runs under environments that answer otherwise. Event counters wrap round at 2^64.
-- Calls of the handler to its owner are a list beside its state, not in the trace.
--
-- The notifier pipe of service/pipenotifier.cpp is read and written by two processes; its packets are
-- read off the trace of both. Its loops run on fuel too, one more than signals interrupt.
--
-- Code of other libraries is a parameter: `split`, `starts_with` and `separated_values::split` of
-- texts, with their documented behaviour as hypotheses where it is needed, `lexical_cast`, `absolute`
-- and `parent_path`, the tokenizer, `md5::hash_hex`, the parts of a URI, the lines that `readline` gives,
-- and Boost.Program_options, of which it is only taken that a value once stored stays, is counted and
-- is read. `guardedCall` is taken to do its last part whether the call returns or throws. Of the file
-- system it is taken, where two processes share it, that a file stays what it is until somebody removes
-- it, and that a lock is refused while another process has it; what a recursive removal takes with it
-- is a parameter.
-- The virtual functions of a program are fields of a record, and its hooks any runs.
--
-- Not modelled: the help texts of the options and the dump of the configuration to the log; the accessors
-- of a program, such as `uptime` and `argv0`; the value that a stream reads from a positional argument
-- in service/config.hpp; the variants for Windows; and the constants that the build generates.
pub mod Prelude
pub mod Unrecognized
pub mod Program
pub mod Cmdline
pub mod Verbosity
pub mod ConfigFile
pub mod Licence
pub mod NetClient
pub mod CtrlTool
pub mod Running
pub mod PipeNotifier
pub mod Tests
pub mod Os
pub mod Terminator
pub mod Allocator
pub mod SignalHandler
pub mod Ctrl
pub mod Persona
pub mod Daemon
pub mod Service
pub mod PidFile
pub mod SendSignal
