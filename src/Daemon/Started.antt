-- ===== src/Daemon/Started.antt =====
-- `start` and `status` of the daemon agree.
use context_os.Base.{ℕ, true, false, Option, none, some, ◌≡◌, refl, sym, ap, ◌∙◌, ◌↔◌, arith}
use context_os.Base.Decimal.{ℤ, pos, decimal, int_of-decimal}
use context_os.Daemon.{
  Os, Machine, Failure, ok, err, read_pid, is_process_alive, running, spawned, start_unless, start,
  status_of, status,
}

module _ (O : Os) where
  -- After a start that returned `pid`: none was running, the pid file reads as the pid and the
  -- sentinel is gone.
  abbrev pub IsStarted : Machine O → ℕ → Machine O → Type 0
  IsStarted m pid m' =
      (running O (read_pid m.pid_file) m.os ≡ some none)
      × (read_pid m'.pid_file ≡ some (pos pid))
      × (m'.sentinel ≡ false)

  spawned-IsStarted :
      (x : Option ℕ × O.State) (m m' c : Machine O) (pid : ℕ)
      → c.sentinel ≡ false
      → running O (read_pid m.pid_file) m.os ≡ some none
      → spawned O x c ≡ (ok pid, m')
      → IsStarted m pid m'
  unfolding spawned read_pid
  spawned-IsStarted (none, s) m m' c pid h r e = cc
  spawned-IsStarted (some n, s) m m' c pid h r e =
      let same : n ≡ pid = ground (arith, ap (λ t. t.0) e) in
      let left : record c { pid_file = some (decimal n); os = s } ≡ m' = ap (λ t. t.1) e in
      (
        r,
        ap (λ t. read_pid t.pid_file) (sym left) ∙ int_of-decimal n ∙ ap (λ k. some (pos k)) same,
        ap (λ t. t.sentinel) (sym left) ∙ h,
      )

  start_unless-IsStarted :
      (found : Option (Option ℤ)) (m m' : Machine O) (pid : ℕ)
      → running O (read_pid m.pid_file) m.os ≡ found
      → start_unless O found m ≡ (ok pid, m')
      → IsStarted m pid m'
  unfolding start_unless
  start_unless-IsStarted none m m' pid r e = cc
  start_unless-IsStarted (some (some p)) m m' pid r e = cc
  start_unless-IsStarted (some none) m m' pid r e =
      spawned-IsStarted (O.spawn m.os) m m' (record m { sentinel = false }) pid refl r e

  status_running :
      (m : Machine O) (found : Option (Option ℤ)) (p : ℤ)
      → (status_of O found ≡ ok (some p))
        ↔ ((start_unless O found m).0 ≡ err (Failure.already_running p))
  unfolding status_of start_unless spawned
  status_running m none p = (λ h. cc, λ h. cc)
  status_running m (some (some q)) p = (
    λ h. let e : q ≡ p = cc in ap (λ x. err (Failure.already_running x)) e,
    λ h. let e : q ≡ p = cc in ap (λ x. ok (some x)) e,
  )
  status_running m (some none) p = (λ h. cc, λ h. spawned_not (O.spawn m.os) h)
    where
      spawned_not :
          (x : Option ℕ × O.State)
          → (spawned O x (record m { sentinel = false })).0 ≡ err (Failure.already_running p)
          → ok none ≡ ok (some p)
      spawned_not (none, s) h = cc
      spawned_not (some n, s) h = cc

  running-found :
      (pid : ℤ) (s : O.State)
      → is_process_alive O pid s ≡ some true
      → running O (some pid) s ≡ some (some pid)
  unfolding running
  running-found pid s h = rw (running, h) refl

  -- A start that returned `pid` found no live process, left a pid file that reads as the pid, and
  -- took the stop sentinel away. As long as that process is alive, `status` reports it, and a
  -- second start is refused and changes nothing.
  pub start-status :
      (m m' : Machine O) (pid : ℕ)
      → start O m ≡ (ok pid, m')
      → is_process_alive O (pos pid) m'.os ≡ some true
      → IsStarted m pid m'
        × (status O m' ≡ ok (some (pos pid)))
        × (start O m' ≡ (err (Failure.already_running (pos pid)), m'))
  unfolding start status
  start-status m m' pid e alive =
      let done = start_unless-IsStarted (running O (read_pid m.pid_file) m.os) m m' pid refl e in
      let found = ap (λ p. running O p m'.os) done.1 ∙ running-found (pos pid) m'.os alive in
      (
        done,
        ap (status_of O) found ∙ unfold status_of in refl,
        ap (λ r. start_unless O r m') found ∙ unfold start_unless in refl,
      )

  -- `start` is refused because of a pid exactly if `status` reports it.
  pub status-iff-refused :
      (m : Machine O) (p : ℤ)
      → (status O m ≡ ok (some p)) ↔ ((start O m).0 ≡ err (Failure.already_running p))
  unfolding status start
  status-iff-refused m p = status_running m (running O (read_pid m.pid_file) m.os) p
