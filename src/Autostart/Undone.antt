-- ===== src/Autostart/Undone.antt =====
-- What a disabling takes back of an enabling.
use context_os.Base.{
  Bool, true, false, ◌&&◌, Option, none, some, List, [], ◌∷◌, ◌++◌, ◌≡◌, refl, sym, ap, ◌∙◌, nat_eq,
  list_eq, bool_eq, if◌then◌else◌, Bool-cases, inl, inr, beq_refl,
}
use context_os.Base.Text.{Str, str}
use context_os.Paths.Pure.{PurePath}
use context_os.Autostart.{
  Step, answer, set_file, Platform, win32, darwin, other, Failure, Result, ok, err, System, Machine,
  is_same, exists, translated, windows_startup_path, linux_systemd_unit_path,
  linux_xdg_autostart_path, write_text, unlink, run_systemctl, enable_windows, enable_linux,
  enable_linux_by, reload, enable_unit, unit_enabled, entry_written, bat_written, unit_name,
  ctx_path, linux_systemd_unit_content, linux_xdg_autostart_content, windows_bat_content,
  disable_linux_by, disable_windows, disable_linux, enable_on, enable, disable_on, disable,
}

is_same_refl : (p : PurePath) → is_same p p ≡ true
is_same_refl p = rw (beq_refl p.rooted, beq_refl p.parts)

module _ (S : System) where
  abbrev Files : Type 0
  Files = PurePath → Option Str

  abbrev with_file : PurePath → Option Str → Files → Files
  with_file p text files q = if is_same p q then text else files q

  -- The file that `enable` writes, by the platform and by whether there is a systemctl.
  abbrev pub target : Platform → Bool → PurePath
  target win32 systemd = windows_startup_path S
  target darwin systemd = linux_xdg_autostart_path S
  target other true = linux_systemd_unit_path S
  target other false = linux_xdg_autostart_path S

  -- A disabling that returns leaves the files of before the enabling, less the one that was
  -- written; one that raises leaves the files as it met them.
  abbrev pub IsUndone : PurePath → Files → Files → Result × Machine S → Type 0
  IsUndone p before met (ok text, m) =
      (q : PurePath) → m.files q ≡ (if is_same p q then none else before q)
  IsUndone p before met (err e, m) = (q : PurePath) → m.files q ≡ met q

  -- If `x` has returned, the files have the property.
  unfoldable Ends : (Files → Type 0) → Result × Machine S → Type 0
  Ends P (ok text, m) = P m.files
  Ends P (err e, m) = Unit

  abbrev IsWritten : PurePath → Files → Files → Type 0
  IsWritten p before after = (content : Str) × (after ≡ with_file p (some content) before)

  write_text-Ends :
      (P : Files → Type 0) (p : PurePath) (content : Str) (next : Step S) (m : Machine S)
      → ((m' : Machine S) → IsWritten p m.files m'.files → Ends P (next m'))
      → Ends P (write_text S p content next m)
  unfolding write_text Ends
  write_text-Ends P p content next m h = elim (Bool-cases (S.is_writable p)) [
    | inl e ↦ rw e (
        h (set_file S p (some (translated S.platform content)) m)
          (translated S.platform content, refl))
    | inr e ↦ rw e tt
  ]

  run_systemctl-Ends :
      (P : Files → Type 0) (args : List Str) (next : Step S) (m : Machine S)
      → ((m' : Machine S) → m'.files ≡ m.files → Ends P (next m'))
      → Ends P (run_systemctl S args next m)
  unfolding run_systemctl Ends
  run_systemctl-Ends P args next m h = elim (Bool-cases (S.systemctl args m.state).0) [
    | inl e ↦ rw e (h (record m { state = (S.systemctl args m.state).1 }) refl)
    | inr e ↦ rw e tt
  ]

  answer-Ends :
      (P : Files → Type 0) (text : Str) (m : Machine S) → P m.files → Ends P (answer S text m)
  unfolding Ends
  answer-Ends P text m h = h

  unset :
      (b : Bool) (content : Str) (now before : Option Str)
      → now ≡ (if b then some content else before)
      → (if b then none else now) ≡ (if b then none else before)
  unset true content now before h = refl
  unset false content now before h = h

  unlink-IsUndone :
      (p : PurePath) (content text : Str) (before : Files) (m : Machine S)
      → m.files ≡ with_file p (some content) before
      → IsUndone p before m.files (unlink S p (answer S text) m)
  unfolding unlink
  unlink-IsUndone p content text before m h = elim (Bool-cases (S.is_removable p)) [
    | inl e ↦ rw e (λ q. unset (is_same p q) content (m.files q) (before q) (ap (λ f. f q) h))
    | inr e ↦ rw e (λ q. refl)
  ]

  -- A step that changes no file.
  abbrev Stays : Step S → Type 0
  Stays next = (m : Machine S) → Ends (λ files. files ≡ m.files) (next m)

  Ends-subst :
      (P Q : Files → Type 0) (x : Result × Machine S)
      → ((files : Files) → P files → Q files)
      → Ends P x
      → Ends Q x
  unfolding Ends
  Ends-subst P Q (ok text, m) f h = f m.files h
  Ends-subst P Q (err e, m) f h = tt

  run_systemctl-Stays :
      (args : List Str) (next : Step S) → Stays next → Stays (run_systemctl S args next)
  run_systemctl-Stays args next h m =
      run_systemctl-Ends (λ files. files ≡ m.files) args next m
        (λ m' e.
          Ends-subst (λ files. files ≡ m'.files) (λ files. files ≡ m.files) (next m')
            (λ files e'. e' ∙ e) (h m'))

  reload-Stays : Stays (reload S)
  unfolding reload enable_unit
  reload-Stays = run_systemctl-Stays (str "daemon-reload" ∷ []) (enable_unit S) (
      run_systemctl-Stays (str "enable" ∷ str "--now" ∷ unit_name ∷ []) (unit_enabled S)
        (λ m. answer-Ends (λ files. files ≡ m.files) _ m refl))

  write_text-IsWritten :
      (p : PurePath) (content : Str) (next : Step S) (m : Machine S)
      → Stays next
      → Ends (IsWritten p m.files) (write_text S p content next m)
  write_text-IsWritten p content next m h =
      write_text-Ends (IsWritten p m.files) p content next m (λ m' made.
        Ends-subst (λ files. files ≡ m'.files) (IsWritten p m.files) (next m')
          (λ files e. (made.0, e ∙ made.1)) (h m'))

  enable_linux-Ends :
      (systemd : Bool) (m : Machine S)
      → Ends (IsWritten (target other systemd) m.files) (enable_linux_by S systemd m)
  unfolding enable_linux_by
  enable_linux-Ends true m =
      write_text-IsWritten (linux_systemd_unit_path S)
        (linux_systemd_unit_content (ctx_path S S.which_ctx)) (reload S) m reload-Stays
  enable_linux-Ends false m =
      write_text-IsWritten (linux_xdg_autostart_path S)
        (linux_xdg_autostart_content (ctx_path S S.which_ctx)) (entry_written S) m
        (λ m1. answer-Ends (λ files. files ≡ m1.files) _ m1 refl)

  enable-Ends :
      (platform : Platform) (m : Machine S)
      → Ends (IsWritten (target platform S.has_systemctl) m.files) (enable_on S platform m)
  unfolding enable_on enable_windows enable_linux Ends
  enable-Ends win32 m =
      write_text-IsWritten (windows_startup_path S) (windows_bat_content (ctx_path S S.which_ctx))
        (bat_written S) m
        (λ m1.
          answer-Ends (λ files. files ≡ m1.files) (str "wrote " ++ S.show (windows_startup_path S))
            m1 refl)
  enable-Ends darwin m = tt
  enable-Ends other m = enable_linux-Ends S.has_systemctl m

  IsWritten-exists :
      (p : PurePath) (before after : Files) → IsWritten p before after → exists (after p) ≡ true
  IsWritten-exists p before after (content, e) =
      ap exists (ap (λ f. f p) e) ∙ rw (is_same_refl p) refl

  disable_windows-IsUndone :
      (before : Files) (m : Machine S)
      → IsWritten (windows_startup_path S) before m.files
      → IsUndone (windows_startup_path S) before m.files (disable_windows S m)
  unfolding disable_windows
  disable_windows-IsUndone before m made =
      rw (IsWritten-exists (windows_startup_path S) before m.files made)
        (unlink-IsUndone (windows_startup_path S) made.0 _ before m made.1)

  disable_linux-IsUndone :
      (systemd : Bool) (before : Files) (m : Machine S)
      → IsWritten (target other systemd) before m.files
      → IsUndone
          (target other systemd)
          before
          m.files
          (disable_linux_by S (systemd && exists (m.files (linux_systemd_unit_path S))) m)
  unfolding disable_linux_by run_systemctl
  disable_linux-IsUndone true before m made =
      rw (IsWritten-exists (linux_systemd_unit_path S) before m.files made)
        (elim (Bool-cases (S.systemctl (str "disable" ∷ str "--now" ∷ unit_name ∷ []) m.state).0) [
          | inl e ↦ rw e (
              unlink-IsUndone (linux_systemd_unit_path S) made.0 _ before
                (record m {
                  state = (S.systemctl (str "disable" ∷ str "--now" ∷ unit_name ∷ []) m.state).1;
                })
                made.1)
          | inr e ↦ rw e (λ q. refl)
        ])
  disable_linux-IsUndone false before m made =
      rw (IsWritten-exists (linux_xdg_autostart_path S) before m.files made)
        (unlink-IsUndone (linux_xdg_autostart_path S) made.0 _ before m made.1)

  disable_on-IsUndone :
      (platform : Platform) (before : Files) (m : Machine S)
      → IsWritten (target platform S.has_systemctl) before m.files
      → IsUndone (target platform S.has_systemctl) before m.files (disable_on S platform m)
  unfolding disable_on disable_linux
  disable_on-IsUndone win32 before m made = disable_windows-IsUndone before m made
  disable_on-IsUndone darwin before m made = λ q. refl
  disable_on-IsUndone other before m made = disable_linux-IsUndone S.has_systemctl before m made

  err-ne_ok : {e : Failure} {text : Str} → ¬ (err e ≡ ok text)
  err-ne_ok h = cc

  returned-IsWritten :
      (p : PurePath) (text : Str) (before : Files) (x : Result × Machine S) (m' : Machine S)
      → x ≡ (ok text, m')
      → Ends (IsWritten p before) x
      → IsWritten p before m'.files
  unfolding Ends
  returned-IsWritten p text before (ok t, m) m' h made =
      (made.0, ap (λ y. y.1.files) (sym h) ∙ made.1)
  returned-IsWritten p text before (err e, m) m' h made = absurd (err-ne_ok (ap (λ y. y.0) h))

  -- After an `enable` that returns, a `disable` that returns leaves the files of before, less the
  -- one that `enable` writes; a `disable` that raises leaves the files as it met them.
  pub disable-enable :
      (m m' : Machine S) (text : Str)
      → enable S m ≡ (ok text, m')
      → IsUndone (target S.platform S.has_systemctl) m.files m'.files (disable S m')
  unfolding enable disable
  disable-enable m m' text h = disable_on-IsUndone S.platform m.files m' (
      returned-IsWritten (target S.platform S.has_systemctl) text m.files (enable S m) m' h
        (enable-Ends S.platform m))
