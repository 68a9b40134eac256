-- ===== src/Daemon.antt =====
-- app/cli/daemon.py: starting, asking after and stopping the daemon by its pid file.
pub mod Started
pub mod Stopped
use context_os.Base.{
  ℕ, zero, suc, ◌+◌, Bool, true, false, not, ◌&&◌, ◌||◌, Option, none, some, List, [], ◌∷◌, ◌==◌,
  nat_eq, list_eq, if◌then◌else◌, ltb,
}
use context_os.Base.Decimal.{ℤ, pos, negsuc, decimal, int_of}
use context_os.Base.Text.{Str, str, starts_with}

-- What `os.kill(pid, 0)` comes to.
pub data Probe : Type 0 where
  delivered no_process not_permitted too_large : Probe

-- The operating system. `windows` is `sys.platform == "win32"`; `tasklist` is the output of the
-- command for a pid; `spawn` is none where no process could be started, and a signal false where
-- it raises an OSError; `monotonic` counts in whole ticks.
pub record Os : Type 1 where
  pub State : Type 0
  pub windows : Bool
  pub tasklist : ℤ → State → Str
  pub probe : ℤ → State → Probe
  pub spawn : State → Option ℕ × State
  pub send_stop_signal : ℤ → State → Bool × State
  pub force_kill : ℤ → State → Bool × State
  pub sleep : State → State
  pub monotonic : State → ℕ

-- The pid file, whether the stop sentinel stands, and the rest.
pub record Machine (O : Os) : Type 0 where
  pub pid_file : Option Str
  pub sentinel : Bool
  pub os : O.State

-- The exceptions that a call ends with.
pub data Failure : Type 0 where
  already_running : (pid : ℤ) → Failure
  not_spawned not_probed not_killed : Failure

pub data Result (A : Type 0) : Type 0 where
  ok : A → Result A
  err : Failure → Result A

-- `str(pid)`
unfoldable pub show_pid : ℤ → Str
unfolding decimal
show_pid (pos n) = decimal n
show_pid (negsuc n) = b'-' ∷ decimal (suc n)

-- `needle in s`
unfoldable pub includes : Str → Str → Bool
unfolding starts_with
includes needle [] = starts_with [] needle
includes needle (c ∷ s) = starts_with (c ∷ s) needle || includes needle s

-- A process that may not be signalled is alive; none is an OverflowError.
unfoldable pub alive_by : Probe → Option Bool
alive_by Probe.delivered = some true
alive_by Probe.not_permitted = some true
alive_by Probe.no_process = some false
alive_by Probe.too_large = none

-- `_read_pid`
unfoldable pub read_pid : Option Str → Option ℤ
unfolding int_of
read_pid none = none
read_pid (some text) = int_of text

module _ (O : Os) where
  unfoldable pub is_process_alive : ℤ → O.State → Option Bool
  unfolding includes show_pid alive_by
  is_process_alive pid s =
      if O.windows
      then some (includes (show_pid pid) (O.tasklist pid s))
      else alive_by (O.probe pid s)

  -- The pid and whether its process is alive: `pid is not None and _is_process_alive(pid)`.
  unfoldable pub running : Option ℤ → O.State → Option (Option ℤ)
  unfolding is_process_alive
  running none s = some none
  running (some pid) s = elim (is_process_alive pid s) [
    | none ↦ none
    | some true ↦ some (some pid)
    | some false ↦ some none
  ]

  unfoldable pub spawned : Option ℕ × O.State → Machine O → Result ℕ × Machine O
  unfolding decimal
  spawned (none, s) m = (err Failure.not_spawned, record m { os = s })
  spawned (some pid, s) m = (ok pid, record m { pid_file = some (decimal pid); os = s })

  unfoldable pub start_unless : Option (Option ℤ) → Machine O → Result ℕ × Machine O
  unfolding spawned
  start_unless none m = (err Failure.not_probed, m)
  start_unless (some (some pid)) m = (err (Failure.already_running pid), m)
  start_unless (some none) m =
      let cleared : Machine O = record m { sentinel = false } in spawned (O.spawn m.os) cleared

  unfoldable pub start : Machine O → Result ℕ × Machine O
  unfolding running read_pid start_unless
  start m = start_unless (running (read_pid m.pid_file) m.os) m

  unfoldable pub status_of : Option (Option ℤ) → Result (Option ℤ)
  status_of none = err Failure.not_probed
  status_of (some found) = ok found

  -- The pid, where "running" is true.
  unfoldable pub status : Machine O → Result (Option ℤ)
  unfolding running read_pid status_of
  status m = status_of (running (read_pid m.pid_file) m.os)

  -- The sentinel stands in for a signal that could not be sent.
  unfoldable pub request_stop : ℤ → Machine O → Machine O
  request_stop pid m =
      let (sent, s) = O.send_stop_signal pid m.os in
      record m { os = s; sentinel = if sent then m.sentinel else true }

  -- The loop that waits, on fuel: none is no fuel, and false an exception.
  unfoldable pub wait : ℕ → ℤ → ℕ → O.State → Option (Bool × O.State)
  unfolding is_process_alive
  wait zero pid deadline s = none
  wait (suc fuel) pid deadline s =
      let again = wait fuel pid deadline (O.sleep s) in
      elim (is_process_alive pid s) [
        | none ↦ some (false, s)
        | some false ↦ some (true, s)
        | some true ↦ if ltb (O.monotonic s) deadline then again else some (true, s)
      ]

  unfoldable pub cleaned : Bool × O.State → Machine O → Result Bool × Machine O
  cleaned (true, s) m = (ok true, record m { pid_file = none; sentinel = false; os = s })
  cleaned (false, s) m = (err Failure.not_killed, record m { os = s })

  unfoldable pub finish : ℤ → Option Bool → Machine O → Result Bool × Machine O
  unfolding cleaned
  finish pid none m = (err Failure.not_probed, m)
  finish pid (some false) m = cleaned (true, m.os) m
  finish pid (some true) m = cleaned (O.force_kill pid m.os) m

  unfoldable pub waited : ℤ → Option (Bool × O.State) → Machine O → Option (Result Bool × Machine O)
  unfolding finish is_process_alive
  waited pid none m = none
  waited pid (some (false, s)) m = some (err Failure.not_probed, record m { os = s })
  waited pid (some (true, s)) m = some (finish pid (is_process_alive pid s) (record m { os = s }))

  unfoldable pub stop_if : ℕ → Option (Option ℤ) → Machine O → Option (Result Bool × Machine O)
  unfolding request_stop wait waited
  stop_if timeout none m = some (err Failure.not_probed, m)
  stop_if timeout (some none) m = some (ok false, record m { pid_file = none; sentinel = false })
  stop_if timeout (some (some pid)) m =
      let asked = request_stop pid m in
      waited pid (wait (suc timeout) pid (O.monotonic asked.os + timeout) asked.os) asked

  -- `timeout` in ticks.
  unfoldable pub stop : ℕ → Machine O → Option (Result Bool × Machine O)
  unfolding running read_pid stop_if
  stop timeout m = stop_if timeout (running (read_pid m.pid_file) m.os) m
