-- ===== src/Tests/Worlds.antt =====
-- A host without symbolic links and home directories, an observer that counts its watches, and
-- a file format that is its own text.
use context_os.Base.{
  ℕ, suc, Bool, true, none, some, List, [], ◌∷◌, ◌≡◌, refl, ◌∙◌, ap, nat_eq, list_eq, list_beq,
}
use context_os.Base.Lists.{filter}
use context_os.Base.Sets.{IsOrder}
use context_os.Base.Text.{Str, str}
use context_os.Paths.Pure.{
  PurePath, slash, is_slash, join, is_absolute, is_name, split_on, names_by, names, names_by-join,
  names_by-names, names_by-slash,
}
use context_os.Paths.Normalize.{Host, IsHost, path_normalize}
use context_os.Configure.Sources.{Source, Config, Yaml, IsYaml, ConfigFiles, local}
use context_os.Watcher.Jobs.{Observer}

unfoldable pub plain_host : Host
unfolding names
plain_host = record { expanduser = λ s. s; resolve = λ s. slash ∷ join (names s) }

pub plain-IsHost : IsHost plain_host
unfolding plain_host names
plain-IsHost = record {
  expanduser-plain = λ s h. refl;
  resolved_names = names;
  resolved_are_names = names_by-names is_slash;
  resolve-eq = λ s. refl;
  resolve-resolve = λ s.
      ap (λ ws. slash ∷ join ws)
        (names_by-slash is_slash refl (join (names s))
          ∙ names_by-join is_slash refl (names s) (names_by-names is_slash s));
}

abbrev pub in_order : List Str → List Str
in_order xs = xs

pub in_order-IsOrder : IsOrder in_order
in_order-IsOrder xs x = refl

abbrev pub counting : Observer
counting = record {
  State = ℕ;
  Handle = ℕ;
  schedule = λ n path recursive. (n, suc n);
  unschedule = λ n watch. n;
}

abbrev pub plain_yaml : Yaml
plain_yaml = record { Document = Config; safe_load = some; safe_dump = λ c. c }

pub plain-IsYaml : IsYaml plain_yaml
plain-IsYaml = record { load-dump = λ c. refl }

abbrev pub docs : Str
docs = str "/home/ann/docs"

abbrev pub home : Str
home = str "/home/ann"

abbrev pub notes : Str
notes = str "/home/ann/notes"

abbrev pub plan : Str
plan = str "/home/ann/docs/plan.md"

abbrev pub docs_source : Source
docs_source = record { kind = local; path = docs }

abbrev pub docs_config : Config
docs_config = record { sources = docs_source ∷ [] }

abbrev pub docs_files : ConfigFiles plain_yaml
docs_files = record { config = some docs_config; snapshot = none }

-- Every path is a directory.
abbrev pub is_home_dir : PurePath → Bool
is_home_dir p = true

-- The test paths are in normal form.
pub plain-normal :
    (s : Str) → is_absolute s ≡ true → slash ∷ join (names s) ≡ s → path_normalize plain_host s ≡ s
unfolding path_normalize plain_host
plain-normal s h k = rw h k

pub docs-normal : path_normalize plain_host docs ≡ docs
unfolding is_absolute join names names_by split_on is_name list_beq filter
docs-normal = plain-normal docs refl refl

pub home-normal : path_normalize plain_host home ≡ home
unfolding is_absolute join names names_by split_on is_name list_beq filter
home-normal = plain-normal home refl refl
