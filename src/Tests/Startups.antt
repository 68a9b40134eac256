-- ===== src/Tests/Startups.antt =====
-- The theorem on the start of the daemon at a directory of one file.
use context_os.Base.{
  true, false, some, List, [], ◌∷◌, ◌≡◌, refl, nat_eq, list_eq, list_beq, option_beq,
}
use context_os.Base.Lists.{filter, contains, any}
use context_os.Base.Sets.{distinct}
use context_os.Base.Text.{str}
use context_os.Versioning.{Outcome}
use context_os.Versioning.Tables.{Row, find_context}
use context_os.Paths.Normalize.{path_normalize}
use context_os.Paths.Mirror.{resolve_mirror_location}
use context_os.Configure.Sources.{Source}
use context_os.Startup.{Boot, Setup, start, get_sources, init_config_file}
use context_os.Startup.Initial.{IsStarted, start_lem}
use context_os.Tests.Worlds.{
  plain_host, plain-IsHost, plain_yaml, plain-IsYaml, in_order, plan, docs_config, docs_files,
  is_home_dir,
}
use context_os.Tests.Versions.{mirrors, log, stats}

abbrev setup : Setup plain_yaml log
setup = record {
  disk = record {
    get_path_stats = stats;
    read_bytes = λ path. some (1 ∷ []);
    differs = λ a b. true;
  };
  gen_ulid = λ n. n ∷ [];
  is_file = λ p. false;
  is_dir = is_home_dir;
  exists = λ p. true;
  files_below = λ p. plan ∷ [];
  iterate = in_order;
  empty = record { sources = [] };
  init_db = λ db. Outcome.returned db;
  reset_stale_indexes = λ g. Outcome.returned g;
}

abbrev before : Boot plain_yaml log
before = record {
  files = docs_files;
  world = record { db = record { contexts = []; locations = [] }; git = [] };
  made = 0;
}

abbrev plan_row : Row
plan_row = record {
  key = (str "7", str "1");
  context_id = 0 ∷ [];
  location = plan;
  provider = str "local";
  active = true;
}

abbrev after : Boot plain_yaml log
after = record {
  files = record docs_files { snapshot = some docs_config };
  world = record {
    db = record { contexts = (0 ∷ []) ∷ []; locations = plan_row ∷ [] };
    git = str "created plan.md via startup:scan" ∷ [];
  };
  made = 1;
}

runs : start plain_host mirrors plain_yaml log setup before ≡ Outcome.returned after
unfolding start list_beq filter option_beq path_normalize plain_host find_context contains any
    resolve_mirror_location distinct
runs = refl

start_lem_example :
    (sources : List Source) × (get_sources plain_host mirrors plain_yaml log setup
        (init_config_file plain_host mirrors plain_yaml log setup docs_files)
      ≡ some sources)
    × IsStarted plain_host plain_yaml plain-IsHost plain-IsYaml mirrors log setup sources
        (init_config_file plain_host mirrors plain_yaml log setup docs_files)
        after
start_lem_example =
    start_lem plain_host plain_yaml plain-IsHost plain-IsYaml mirrors log setup before after runs
