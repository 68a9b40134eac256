-- ===== src/Tests/Autostarts.antt =====
-- The theorem on the autostart files at a host with systemd.
use context_os.Base.{true, none, some, [], ◌∷◌, ◌≡◌, refl, nat_eq, list_eq, bool_eq}
use context_os.Base.Text.{str}
use context_os.Autostart.{
  other, ok, System, Machine, linux_systemd_unit_path, linux_systemd_unit_content, translated,
  ctx_path, write_text, run_systemctl, reload, enable_unit, enable_linux, enable_linux_by,
  enable_on, enable, disable, set_file,
}
use context_os.Autostart.Undone.{target, IsUndone, disable-enable}

abbrev linux : System
linux = record {
  State = Unit;
  platform = other;
  has_systemctl = true;
  which_ctx = some (str "/usr/bin/ctx");
  argv0 = str "/tmp/ctx";
  home = record { rooted = true; parts = str "home" ∷ str "ann" ∷ [] };
  appdata = none;
  show = λ p. str "unit";
  is_writable = λ p. true;
  is_removable = λ p. true;
  systemctl = λ args s. (true, s);
}

abbrev fresh : Machine linux
fresh = record { files = λ p. none; state = tt }

abbrev enabled : Machine linux
enabled =
    set_file linux (linux_systemd_unit_path linux)
      (some (linux_systemd_unit_content (str "/usr/bin/ctx"))) fresh

runs : enable linux fresh ≡ (ok (str "wrote unit and enabled via systemctl --user"), enabled)
unfolding enable enable_on enable_linux enable_linux_by write_text run_systemctl reload enable_unit
    translated ctx_path
runs = refl

disable-enable_example :
    IsUndone linux (target linux other true) fresh.files enabled.files (disable linux enabled)
disable-enable_example =
    disable-enable linux fresh enabled (str "wrote unit and enabled via systemctl --user") runs
