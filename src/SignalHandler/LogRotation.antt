-- ===== src/SignalHandler/LogRotation.antt =====
-- service/detail/signalhandler.cpp: how often the log is rotated, and who processes statistics.
use libservice.Prelude.{
  ℕ, suc, ◌+◌, ◌^◌, ◌<◌, ◌&&◌, not, some, List, [], ◌∷◌, ◌++◌, ◌==◌, ◌≡◌, arith, if◌then◌else◌,
}
use libservice.SignalHandler.{
  Handler, Event, signalled, operation_aborted, OwnerCall, log_rotate, process_stat, sighup,
  sigusr1, u64, run_event, poll, process, check_log_rotate, check_stat,
}

-- How many events carry the signal and are not the abort of a wait.
abbrev pub arrivals : ℕ → List Event → ℕ
arrivals signo [] = 0
arrivals signo (signalled (some operation_aborted) s ∷ es) = arrivals signo es
arrivals signo (signalled e s ∷ es) = let n = arrivals signo es in if s == signo then suc n else n
arrivals signo (_ ∷ es) = arrivals signo es

abbrev pub rotations : List OwnerCall → ℕ
rotations [] = 0
rotations (log_rotate ∷ cs) = suc (rotations cs)
rotations (_ ∷ cs) = rotations cs

abbrev pub statistics : List OwnerCall → ℕ
statistics [] = 0
statistics (process_stat ∷ cs) = suc (statistics cs)
statistics (_ ∷ cs) = statistics cs

rotations-append : (xs ys : List OwnerCall) → rotations (xs ++ ys) ≡ rotations xs + rotations ys
rotations-append [] ys = omega arith
rotations-append (log_rotate ∷ xs) ys = omega (arith, rotations-append xs ys)
rotations-append (_ ∷ xs) ys = omega (arith, rotations-append xs ys)

statistics-append : (xs ys : List OwnerCall) → statistics (xs ++ ys) ≡ statistics xs + statistics ys
statistics-append [] ys = omega arith
statistics-append (process_stat ∷ xs) ys = omega (arith, statistics-append xs ys)
statistics-append (_ ∷ xs) ys = omega (arith, statistics-append xs ys)

-- The counters after events: each arrival counts once, and the owner is not called for it yet.
record Counted (es : List Event) (h g : Handler) (calls : List OwnerCall) : Type 0 where
  rotate_event : g.shared.log_rotate_event ≡ u64 (h.shared.log_rotate_event + arrivals sighup es)
  stat_event : g.shared.stat_event ≡ u64 (h.shared.stat_event + arrivals sigusr1 es)
  last_rotate : g.local.last_log_rotate_event ≡ h.local.last_log_rotate_event
  last_stat : g.local.last_stat_event ≡ h.local.last_stat_event
  same_pid : g.local.pid ≡ h.local.pid
  same_main : g.local.main_pid ≡ h.local.main_pid
  no_rotation : rotations calls ≡ 0
  no_statistics : statistics calls ≡ 0

-- The counters are 64-bit values.
abbrev pub IsU64 : Handler → Type 0
IsU64 h = (h.shared.log_rotate_event < 2 ^ 64) × (h.shared.stat_event < 2 ^ 64)

run_event-Counted :
    (e : Event) (h : Handler) → IsU64 h → Counted (e ∷ []) h (run_event e h).0 (run_event e h).1
unfolding run_event
run_event-Counted e h b = ground arith

poll-Counted : (es : List Event) (h : Handler) → IsU64 h → Counted es h (poll es h).0 (poll es h).1
unfolding poll
poll-Counted [] h b = ground arith
poll-Counted (e ∷ es) h b =
    let one : Counted (e ∷ []) h (run_event e h).0 (run_event e h).1 = run_event-Counted e h b in
    let rest : Counted es (run_event e h).0 (poll es (run_event e h).0).0
        (poll es (run_event e h).0).1 =
      poll-Counted es (run_event e h).0 (ground arith) in
    ground (
      arith,
      one,
      rest,
      rotations-append (run_event e h).1 (poll es (run_event e h).0).1,
      statistics-append (run_event e h).1 (poll es (run_event e h).0).1,
    )

-- With `k` log rotation requests since the last one that `process` served, it asks the owner for one
-- rotation, however many they are, and for none exactly when there is no request or their number is
-- a multiple of 2^64; then every request is served.
pub process_rotates :
    (es : List Event) (h : Handler) (k : ℕ)
    → IsU64 h
    → h.local.last_log_rotate_event < 2 ^ 64
    → h.shared.log_rotate_event ≡ u64 (h.local.last_log_rotate_event + k)
    → let p = process es h in
      (rotations p.calls ≡ (if u64 (k + arrivals sighup es) == 0 then 0 else 1))
      × (p.handler.local.last_log_rotate_event ≡ p.handler.shared.log_rotate_event)
unfolding process
process_rotates es h k b old pending =
    let q : Handler = (poll es h).0 in
    let r = check_log_rotate q in
    ground (
      arith,
      poll-Counted es h b,
      rotations-append (poll es h).1 (r.1 ++ (check_stat r.0).1),
      rotations-append r.1 (check_stat r.0).1,
    )

-- Statistics are processed at most once for all pending requests, by the main process alone; another
-- process leaves them pending.
process_counts :
    (es : List Event) (h : Handler)
    → IsU64 h
    → let p = process es h in
      (statistics p.calls ≡ (
        if (h.local.pid == h.local.main_pid)
          && not (u64 (h.shared.stat_event + arrivals sigusr1 es) == h.local.last_stat_event)
        then 1
        else 0))
      × (p.handler.local.last_stat_event ≡ (
          if h.local.pid == h.local.main_pid
          then p.handler.shared.stat_event
          else h.local.last_stat_event))
unfolding process
process_counts es h b =
    let q : Handler = (poll es h).0 in
    let r = check_log_rotate q in
    ground (
      arith,
      poll-Counted es h b,
      statistics-append (poll es h).1 (r.1 ++ (check_stat r.0).1),
      statistics-append r.1 (check_stat r.0).1,
    )
