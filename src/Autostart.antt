-- ===== src/Autostart.antt =====
-- app/cli/autostart.py: the files that make the operating system start the daemon.
pub mod Undone
use context_os.Base.{
  ℕ, Bool, true, false, ◌&&◌, Option, none, some, List, [], ◌∷◌, ◌++◌, ◌==◌, nat_eq, list_eq,
  bool_eq, if◌then◌else◌,
}
use context_os.Base.Text.{Str, str}
use context_os.Paths.Pure.{PurePath}

pub data Platform : Type 0 where
  win32 darwin other : Platform

-- How a call ends; an `os_error` is an exception of the file system.
pub data Failure : Type 0 where
  autostart not_implemented os_error : Failure

pub data Result : Type 0 where
  ok : Str → Result
  err : Failure → Result

-- What is read of the environment, an empty variable being none and the paths of ctx as pathlib
-- shows them, and `systemctl --user`, which may fail; `show` is `str` of a
-- path. `is_writable` tells whether the parent can be made and the file be written,
-- `is_removable` whether `unlink` succeeds.
pub record System : Type 1 where
  pub State : Type 0
  pub platform : Platform
  pub has_systemctl : Bool
  pub which_ctx : Option Str
  pub argv0 : Str
  pub home : PurePath
  pub appdata : Option PurePath
  pub show : PurePath → Str
  pub is_writable : PurePath → Bool
  pub is_removable : PurePath → Bool
  pub systemctl : List Str → State → Bool × State

-- The texts of the files that there are, and the state of systemd.
pub record Machine (S : System) : Type 0 where
  pub files : PurePath → Option Str
  pub state : S.State

-- `p / a / b`
abbrev pub below : PurePath → List Str → PurePath
below p names = record p { parts = p.parts ++ names }

abbrev pub is_same : PurePath → PurePath → Bool
is_same p q = p.rooted == q.rooted && p.parts == q.parts

abbrev pub exists : Option Str → Bool
exists none = false
exists (some text) = true

abbrev pub carriage_return : ℕ
carriage_return = 13

-- Text mode on Windows writes CR LF for each LF.
unfoldable pub translated : Platform → Str → Str
translated win32 [] = []
translated win32 (c ∷ s) =
    let rest = translated win32 s in if c == 10 then carriage_return ∷ 10 ∷ rest else c ∷ rest
translated darwin s = s
translated other s = s

abbrev line : Str → Str
line s = s ++ 10 ∷ []

unfoldable pub windows_bat_content : Str → Str
windows_bat_content ctx_path =
    line (str "@echo off" ++ carriage_return ∷ [])
    ++ line (str "start \"\" /B \"" ++ ctx_path ++ str "\" daemon start" ++ carriage_return ∷ [])

unfoldable pub linux_systemd_unit_content : Str → Str
linux_systemd_unit_content ctx_path =
    line (str "[Unit]")
    ++ line (str "Description=chrono-ctx daemon")
    ++ line []
    ++ line (str "[Service]")
    ++ line (str "Type=forking")
    ++ line (str "ExecStart=" ++ ctx_path ++ str " daemon start")
    ++ line (str "ExecStop=" ++ ctx_path ++ str " daemon stop")
    ++ line (str "Restart=no")
    ++ line []
    ++ line (str "[Install]")
    ++ line (str "WantedBy=default.target")

unfoldable pub linux_xdg_autostart_content : Str → Str
linux_xdg_autostart_content ctx_path =
    line (str "[Desktop Entry]")
    ++ line (str "Type=Application")
    ++ line (str "Name=chrono-ctx")
    ++ line (str "Exec=" ++ ctx_path ++ str " daemon start")
    ++ line (str "X-GNOME-Autostart-enabled=true")

abbrev pub unit_name : Str
unit_name = str "chrono-ctx.service"

module _ (S : System) where
  abbrev pub Step : Type 0
  Step = Machine S → Result × Machine S

  -- `shutil.which("ctx") or str(Path(sys.argv[0]).resolve())`
  unfoldable pub ctx_path : Option Str → Str
  ctx_path none = S.argv0
  ctx_path (some path) = path

  -- `os.environ.get("APPDATA") or str(Path.home() / "AppData" / "Roaming")`
  unfoldable pub appdata_or : Option PurePath → PurePath
  appdata_or none = below S.home (str "AppData" ∷ str "Roaming" ∷ [])
  appdata_or (some appdata) = appdata

  unfoldable pub windows_startup_path : PurePath
  unfolding appdata_or
  windows_startup_path = below (appdata_or S.appdata) (
      str "Microsoft"
      ∷ str "Windows"
      ∷ str "Start Menu"
      ∷ str "Programs"
      ∷ str "Startup"
      ∷ str "chrono-ctx.bat"
      ∷ [])

  unfoldable pub linux_systemd_unit_path : PurePath
  linux_systemd_unit_path =
      below S.home (str ".config" ∷ str "systemd" ∷ str "user" ∷ unit_name ∷ [])

  unfoldable pub linux_xdg_autostart_path : PurePath
  linux_xdg_autostart_path =
      below S.home (str ".config" ∷ str "autostart" ∷ str "chrono-ctx.desktop" ∷ [])

  abbrev pub set_file : PurePath → Option Str → Machine S → Machine S
  set_file p text m = record m { files = λ q. if is_same p q then text else m.files q }

  -- `path.parent.mkdir(...)`, `path.write_text(...)`, and what follows.
  unfoldable pub write_text : PurePath → Str → Step → Step
  unfolding translated
  write_text p text next m =
      if S.is_writable p
      then next (set_file p (some (translated S.platform text)) m)
      else (err Failure.os_error, m)

  unfoldable pub unlink : PurePath → Step → Step
  unlink p next m = if S.is_removable p then next (set_file p none m) else (err Failure.os_error, m)

  unfoldable pub run_systemctl : List Str → Step → Step
  run_systemctl args next m =
      let (fine, s) = S.systemctl args m.state in
      if fine
      then next (record m { state = s })
      else (err Failure.autostart, record m { state = s })

  abbrev answer : Str → Step
  answer text m = (ok text, m)

  abbrev pub bat_written : Step
  bat_written = answer (str "wrote " ++ S.show windows_startup_path)

  unfoldable pub enable_windows : Step
  unfolding windows_startup_path write_text windows_bat_content ctx_path
  enable_windows =
      write_text windows_startup_path (windows_bat_content (ctx_path S.which_ctx)) bat_written

  unfoldable pub disable_windows : Step
  unfolding windows_startup_path unlink
  disable_windows m =
      let bat_path = windows_startup_path in
      if exists (m.files bat_path)
      then unlink bat_path (answer (str "removed " ++ S.show bat_path)) m
      else (ok (str "nothing to disable"), m)

  abbrev pub unit_enabled : Step
  unit_enabled =
      answer
        (str "wrote " ++ S.show linux_systemd_unit_path ++ str " and enabled via systemctl --user")

  abbrev pub entry_written : Step
  entry_written = answer (
      str "wrote "
      ++ S.show linux_xdg_autostart_path
      ++ str " (no systemd found - only takes effect on a graphical login)")

  unfoldable pub enable_unit : Step
  unfolding run_systemctl linux_systemd_unit_path
  enable_unit = run_systemctl (str "enable" ∷ str "--now" ∷ unit_name ∷ []) unit_enabled

  unfoldable pub reload : Step
  unfolding run_systemctl enable_unit
  reload = run_systemctl (str "daemon-reload" ∷ []) enable_unit

  -- `_enable_linux` and `_disable_linux`, by whether there is a systemctl, and a unit.
  unfoldable pub enable_linux_by : Bool → Step
  unfolding linux_systemd_unit_path linux_xdg_autostart_path write_text reload ctx_path
      linux_systemd_unit_content linux_xdg_autostart_content
  enable_linux_by true =
      write_text linux_systemd_unit_path (linux_systemd_unit_content (ctx_path S.which_ctx)) reload
  enable_linux_by false =
      write_text linux_xdg_autostart_path (linux_xdg_autostart_content (ctx_path S.which_ctx))
        entry_written

  unfoldable pub enable_linux : Step
  unfolding enable_linux_by
  enable_linux = enable_linux_by S.has_systemctl

  unfoldable pub disable_linux_by : Bool → Step
  unfolding linux_systemd_unit_path linux_xdg_autostart_path unlink run_systemctl
  disable_linux_by true m =
      run_systemctl (str "disable" ∷ str "--now" ∷ unit_name ∷ [])
        (unlink linux_systemd_unit_path (
          answer
            (str "disabled via systemctl --user and removed " ++ S.show linux_systemd_unit_path)))
        m
  disable_linux_by false m =
      if exists (m.files linux_xdg_autostart_path)
      then unlink linux_xdg_autostart_path
          (answer (str "removed " ++ S.show linux_xdg_autostart_path)) m
      else (ok (str "nothing to disable"), m)

  unfoldable pub disable_linux : Step
  unfolding linux_systemd_unit_path disable_linux_by
  disable_linux m = disable_linux_by (S.has_systemctl && exists (m.files linux_systemd_unit_path)) m

  unfoldable pub enable_on : Platform → Step
  unfolding enable_windows enable_linux
  enable_on win32 m = enable_windows m
  enable_on darwin m = (err Failure.not_implemented, m)
  enable_on other m = enable_linux m

  unfoldable pub enable : Step
  unfolding enable_on
  enable m = enable_on S.platform m

  unfoldable pub disable_on : Platform → Step
  unfolding disable_windows disable_linux
  disable_on win32 m = disable_windows m
  disable_on darwin m = (err Failure.not_implemented, m)
  disable_on other m = disable_linux m

  unfoldable pub disable : Step
  unfolding disable_on
  disable m = disable_on S.platform m
