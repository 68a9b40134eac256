-- ===== src/Daemon/Stopped.antt =====
-- `stop` of the daemon ends within its time limit, and what it leaves.
use context_os.Base.{
  ℕ, zero, suc, ◌+◌, ◌<◌, ◌≤◌, Bool, true, false, Option, none, some, ◌≡◌, refl, ap, ◌∙◌, ◌⊎◌, inl,
  inr, ltb, if◌then◌else◌, Bool-cases, arith,
}
use context_os.Base.Decimal.{ℤ}
use context_os.Daemon.{
  Os, Machine, Failure, Result, ok, err, read_pid, is_process_alive, running, request_stop, wait,
  cleaned, finish, waited, stop_if, stop,
}

module _ (O : Os) where
  -- Sleeping takes time.
  abbrev pub IsClock : Type 0
  IsClock = (s : O.State) → O.monotonic s < O.monotonic (O.sleep s)

  -- The process is dead, or the last thing that happened is that it was killed.
  abbrev pub IsEnded : ℤ → O.State → Type 0
  IsEnded pid s =
      (is_process_alive O pid s ≡ some false) ⊎ ((t : O.State) × (O.force_kill pid t ≡ (true, s)))

  wait_tested :
      (alive : Option Bool) (s : O.State) (deadline : ℕ) (again : Option (Bool × O.State))
      → ((O.monotonic s < deadline) → (x : Bool × O.State) × (again ≡ some x))
      → (x : Bool × O.State) × ((elim alive as (λ _. Option (Bool × O.State)) [
        | none ↦ some (false, s)
        | some false ↦ some (true, s)
        | some true ↦ if ltb (O.monotonic s) deadline then again else some (true, s)
      ])
          ≡ some x)
  wait_tested none s deadline again h = ((false, s), refl)
  wait_tested (some false) s deadline again h = ((true, s), refl)
  wait_tested (some true) s deadline again h = elim (Bool-cases (ltb (O.monotonic s) deadline)) [
    | inl early ↦ let (x, e) = h (ground arith) in (x, rw early e)
    | inr late ↦ ((true, s), rw late refl)
  ]

  wait_total :
      (fuel : ℕ) (pid : ℤ) (deadline : ℕ) (s : O.State)
      → IsClock
      → deadline ≤ O.monotonic s + fuel
      → (x : Bool × O.State) × (wait O (suc fuel) pid deadline s ≡ some x)
  unfolding wait
  wait_total zero pid deadline s clock h =
      wait_tested (is_process_alive O pid s) s deadline (wait O zero pid deadline (O.sleep s))
        (λ early. absurd (omega arith))
  wait_total (suc fuel) pid deadline s clock h =
      wait_tested (is_process_alive O pid s) s deadline (wait O (suc fuel) pid deadline (O.sleep s))
        (λ early. wait_total fuel pid deadline (O.sleep s) clock (omega (arith, clock s)))

  -- What a call of `stop` says, for the pid that it found alive, if any.
  abbrev pub Stops : Machine O → Option ℤ → Result Bool × Machine O → Type 0
  Stops m none (ok b, m') =
      (b ≡ false) × (m'.pid_file ≡ none) × (m'.sentinel ≡ false) × (m'.os ≡ m.os)
  Stops m (some pid) (ok b, m') =
      (b ≡ true) × (m'.pid_file ≡ none) × (m'.sentinel ≡ false) × IsEnded pid m'.os
  Stops m found (err e, m') = m'.pid_file ≡ m.pid_file

  killed-Stops :
      (m m' : Machine O) (pid : ℤ) (s : O.State) (x : Bool × O.State)
      → m'.pid_file ≡ m.pid_file
      → O.force_kill pid s ≡ x
      → Stops m (some pid) (cleaned O x m')
  unfolding cleaned
  killed-Stops m m' pid s (true, t) h e = (refl, refl, refl, inr (s, e))
  killed-Stops m m' pid s (false, t) h e = h

  finished-Stops :
      (m m' : Machine O) (pid : ℤ) (alive : Option Bool)
      → m'.pid_file ≡ m.pid_file
      → is_process_alive O pid m'.os ≡ alive
      → Stops m (some pid) (finish O pid alive m')
  unfolding finish cleaned
  finished-Stops m m' pid none h e = h
  finished-Stops m m' pid (some false) h e = (refl, refl, refl, inl e)
  finished-Stops m m' pid (some true) h e =
      killed-Stops m m' pid m'.os (O.force_kill pid m'.os) h refl

  waited-Stops :
      (m m' : Machine O) (pid : ℤ) (x : Bool × O.State)
      → m'.pid_file ≡ m.pid_file
      → (r : Result Bool × Machine O) × (waited O pid (some x) m' ≡ some r) × Stops m (some pid) r
  unfolding waited
  waited-Stops m m' pid (false, s) h = ((err Failure.not_probed, record m' { os = s }), refl, h)
  waited-Stops m m' pid (true, s) h = (
    finish O pid (is_process_alive O pid s) (record m' { os = s }),
    refl,
    finished-Stops m (record m' { os = s }) pid (is_process_alive O pid s) h refl,
  )

  asked-pid_file : (m : Machine O) (pid : ℤ) → (request_stop O pid m).pid_file ≡ m.pid_file
  unfolding request_stop
  asked-pid_file m pid = refl

  stopped-Stops :
      (timeout : ℕ) (m : Machine O) (found : Option ℤ)
      → IsClock
      → (r : Result Bool × Machine O) × (stop_if O timeout (some found) m ≡ some r)
        × Stops m found r
  unfolding stop_if
  stopped-Stops timeout m none clock =
      ((ok false, record m { pid_file = none; sentinel = false }), refl, (refl, refl, refl, refl))
  stopped-Stops timeout m (some pid) clock =
      let asked = request_stop O pid m in
      let (x, e) =
        wait_total timeout pid (O.monotonic asked.os + timeout) asked.os clock (omega arith) in
      let (r, f, stops) = waited-Stops m asked pid x (asked-pid_file m pid) in
      (r, ap (λ w. waited O pid w asked) e ∙ f, stops)

  -- `stop` always ends, whatever the daemon does, on as many rounds as the time limit has ticks
  -- and one more. If it finds no live process, it returns false, and else true or raises. Where
  -- it returns, the pid file and the sentinel are gone, and the process is dead or was killed
  -- last; where it raises, the pid file is kept.
  pub stop_ends :
      (timeout : ℕ) (m : Machine O) (found : Option ℤ)
      → IsClock
      → running O (read_pid m.pid_file) m.os ≡ some found
      → (r : Result Bool × Machine O) × (stop O timeout m ≡ some r) × Stops m found r
  unfolding stop
  stop_ends timeout m found clock e =
      let (r, f, stops) = stopped-Stops timeout m found clock in
      (r, ap (λ w. stop_if O timeout w m) e ∙ f, stops)
