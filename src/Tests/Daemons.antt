-- ===== src/Tests/Daemons.antt =====
-- The theorems on the control of the daemon at a concrete operating system.
use context_os.Base.{ℕ, ◌+◌, Bool, true, false, Option, none, some, [], ◌≡◌, refl, arith}
use context_os.Base.Decimal.{pos, decimal, digits, int_of, scan, unsigned, signed, with_sign}
use context_os.Base.Lines.{is_space, strip, lstrip_space, rstrip_space}
use context_os.Base.Text.{str}
use context_os.Daemon.{
  Os, Machine, Failure, Probe, Result, ok, err, read_pid, is_process_alive, running, alive_by,
  spawned, start_unless, start, status, stop,
}
use context_os.Daemon.Started.{IsStarted, start-status}
use context_os.Daemon.Stopped.{IsClock, Stops, stop_ends}

-- What the machine of the tests knows: the time, and the time when the daemon dies, if it was
-- started and not killed.
record Run : Type 0 where
  time : ℕ
  dies : Option ℕ

abbrev is_up : Run → Probe
is_up r = elim r.dies [ none ↦ Probe.no_process | some t ↦ Probe.delivered ]

-- A daemon that a signal does not stop.
abbrev stubborn : Os
stubborn = record {
  State = Run;
  windows = false;
  tasklist = λ pid r. [];
  probe = λ pid r. is_up r;
  spawn = λ r. (some 42, record r { dies = some 9 });
  send_stop_signal = λ pid r. (false, r);
  force_kill = λ pid r. (true, record r { dies = none });
  sleep = λ r. record r { time = r.time + 1 };
  monotonic = λ r. r.time;
}

clock : IsClock stubborn
clock r = omega arith

abbrev never : Machine stubborn
never = record { pid_file = none; sentinel = true; os = record { time = 0; dies = none } }

abbrev up : Machine stubborn
up = record {
  pid_file = some (str "42");
  sentinel = false;
  os = record { time = 0; dies = some 9 };
}

started_up : start stubborn never ≡ (ok 42, up)
unfolding start running read_pid start_unless spawned decimal digits
started_up = refl

start-status_example :
    IsStarted stubborn never 42 up
    × (status stubborn up ≡ ok (some (pos 42)))
    × (start stubborn up ≡ (err (Failure.already_running (pos 42)), up))
start-status_example = start-status stubborn never up 42 started_up up_alive
  where
    up_alive : is_process_alive stubborn (pos 42) up.os ≡ some true
    up_alive = unfold is_process_alive alive_by in refl

up_running : running stubborn (read_pid up.pid_file) up.os ≡ some (some (pos 42))
unfolding running is_process_alive alive_by read_pid int_of strip lstrip_space rstrip_space is_space
    signed unsigned scan with_sign
up_running = refl

stop_ends_example :
    (r : Result Bool × Machine stubborn) × (stop stubborn 3 up ≡ some r)
    × Stops stubborn up (some (pos 42)) r
stop_ends_example = stop_ends stubborn 3 up (some (pos 42)) clock up_running
