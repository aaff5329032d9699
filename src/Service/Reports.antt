-- ===== src/Service/Reports.antt =====
-- service/service.cpp, from `stat` to `logRotate`, and service/program.cpp, `identity` and
-- `versionInfo`: what a service tells of itself.
use libservice.Prelude.{
  ℕ, Text, lit, Bool, true, false, Option, none, some, List, [], ◌∷◌, ◌++◌, take, replicate, length,
  ltb, ◌-◌, is_empty, if◌then◌else◌,
}
use libservice.Os.{log_file, log_rotated, Answer, ok, fail, Trace, M, ◌>>◌, tell}
use libservice.Ctrl.Server.{Written, Owner, wrote}
use libservice.Service.{Hook, hook}

-- The constants that the build makes.
pub record Build : Type 0 where
  pub git_hash : Text
  pub timestamp : Text
  pub hostname : Text
  pub customer_info : Text

-- `identity` and `versionInfo`.
unfoldable pub identity : Build → Text → Text → Text
identity b name version = name ++ (lit "/" ++ (version ++ (lit "/" ++ b.git_hash)))

unfoldable pub version_info : Build → Text → Text → Text
version_info b name version =
    name
    ++ (lit " "
        ++ (version
            ++ (lit " (built "
                ++ ((if is_empty b.timestamp then [] else lit "on " ++ (b.timestamp ++ lit " "))
                    ++ (lit "at "
                        ++ (b.hostname
                            ++ ((if is_empty b.git_hash
                                  then []
                                  else lit " from git commit " ++ b.git_hash)
                                ++ (b.customer_info ++ lit ")"))))))))

-- `getSupplementaryGroups`: the number of groups, and then the groups themselves, which fill the
-- front of a list of that length. None is an exception.
abbrev pub filled : ℕ → List ℕ → List ℕ
filled size gids = gids ++ replicate (size - length gids) 0

unfoldable pub supplementary_groups : Answer ℕ → Answer (List ℕ) → Option (List ℕ)
supplementary_groups (fail e) gids = none
supplementary_groups (ok size) (fail e) = none
supplementary_groups (ok size) (ok gids) =
    some
      (if ltb (length gids) size then take (length gids) (filled size gids) else filled size gids)

-- `printSupplementaryGroups`, with the decimal digits of a number.
unfoldable pub print_gids : (ℕ → Text) → Bool → List ℕ → Text
print_gids decimal first [] = []
print_gids decimal first (gid ∷ gids) =
    (if first then [] else lit " ") ++ (decimal gid ++ print_gids decimal false gids)

unfoldable pub print_supplementary_groups : (ℕ → Text) → Option (List ℕ) → Text
unfolding print_gids
print_supplementary_groups decimal none = lit "?"
print_supplementary_groups decimal (some gids) = print_gids decimal true gids

-- What the report asks of the process and of the clock, as texts.
pub record Status : Type 0 where
  pub pid : Text
  pub ppid : Text
  pub uid : Text
  pub gid : Text
  pub groups : Text
  pub up_since : Text
  pub up_since_gmt : Text
  pub uptime : Text
  pub uptime_formatted : Text

unfoldable pub monitor_report : Build → Text → Text → Status → Text
unfolding version_info
monitor_report b name version s =
    lit "Identity: "
    ++ (version_info b name version
        ++ (lit "\nName: "
            ++ (name
                ++ (lit "\nVersion: "
                    ++ (version
                        ++ (lit "\nPid: "
                            ++ (s.pid
                                ++ (lit " ("
                                    ++ (s.ppid
                                        ++ (lit ")"
                                            ++ (lit "\nPersona: "
                                                ++ (s.uid
                                                    ++ (lit " "
                                                        ++ (s.gid
                                                            ++ (lit " ("
                                                            ++ (s.groups
                                                            ++ (lit ")"
                                                            ++ (lit "\nUp-Since: "
                                                            ++ (s.up_since
                                                            ++ (lit " ("
                                                            ++ (s.up_since_gmt
                                                            ++ (lit " GMT)"
                                                            ++ (lit "\nUptime: "
                                                            ++ (s.uptime
                                                            ++ (lit " "
                                                            ++ (s.uptime_formatted
                                                            ++ lit "\n"))))))))))))))))))))))))))

-- `processMonitor`: the report, and what the service adds to it.
unfoldable pub process_monitor : Build → Text → Text → Status → Written → Written
unfolding monitor_report
process_monitor b name version s monitor = record monitor {
  text = monitor_report b name version s ++ monitor.text;
}

-- The functions of a service that overrides none: it knows no command, has no statistics and adds
-- nothing to the report.
abbrev pub default_ctrl : Written
default_ctrl = record { acts = λ h. h; text = []; thrown = none; answer = false }

abbrev pub default_stat : Written
default_stat = wrote (lit "Service provides no statistics.\n")

abbrev pub default_monitor : Written
default_monitor = wrote []

unfoldable pub default_owner : Build → Text → Text → Status → Owner
unfolding process_monitor
default_owner b name version s = record {
  ctrl = λ cmd. default_ctrl;
  stat = default_stat;
  monitor = process_monitor b name version s default_monitor;
}

-- `processStat`: the message that goes to the log.
unfoldable pub process_stat : Build → Text → Text → Written → Text
unfolding identity
process_stat b name version stat = identity b name version ++ (lit " statistics:\n" ++ stat.text)

-- `logRotate`: the log file is opened again, and the service is told.
unfoldable pub log_rotate : Text → (Trace → Text → Hook (Unit {0})) → M (Unit {0})
log_rotate path rotated = do tell (log_file path); hook (log_rotated path) (λ t. rotated t path)
