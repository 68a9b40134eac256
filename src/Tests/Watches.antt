-- ===== src/Tests/Watches.antt =====
-- The theorems on the watcher at concrete inputs.
use context_os.Base.{
  ℕ, true, false, List, [], ◌∷◌, map, ◌≡◌, refl, nat_eq, list_eq, arith, ◌==◌, list_beq,
  list_beq_iff,
}
use context_os.Base.Lists.{contains, count}
use context_os.Base.Text.{Str, str}
use context_os.Paths.Normalize.{path_normalize, path_normalize_idem}
use context_os.Watcher.Jobs.{Job, WatchWorker, add_watch, reconcile, tagged}
use context_os.Watcher.Views.{paths, others, IsSingle}
use context_os.Watcher.Reconcile.{IsDifference, AreNormal, reconcile_exact}
use context_os.Watcher.Observed.{started, stopped}
use context_os.Watcher.Stray.{config_watch_lost}
use context_os.Watcher.Debounce.{get, process_all, of_path, greedy, AreSpaced, process_all-of_path}
use context_os.Tests.Worlds.{
  plain_host, plain-IsHost, in_order, in_order-IsOrder, counting, docs, home, notes, plan,
  docs-normal, home-normal,
}

abbrev normal : Str → Str
normal s = path_normalize plain_host s

normal_idem : (s : Str) → normal (normal s) ≡ normal s
normal_idem s = path_normalize_idem plain_host plain-IsHost s

-- A worker that watches a source directory and, under another tag, the directory above it.
abbrev source_job : Job ℕ Unit
source_job = record { path = docs; callback = tt; watch = 0; tag = str "source"; debounced = true }

abbrev config_job : Job ℕ Unit
config_job = record { path = home; callback = tt; watch = 1; tag = str "config"; debounced = false }

abbrev watching : WatchWorker counting Unit
watching = record { observer = 2; jobs = source_job ∷ config_job ∷ [] }

docs-ne-home : (docs == home) ≡ false
unfolding list_beq
docs-ne-home = refl

watching-IsSingle : IsSingle watching.jobs
unfolding count
watching-IsSingle x =
    ground (arith, docs-ne-home, list_beq_iff docs x, list_beq_iff home x, list_beq_iff docs home)

watching-AreNormal : AreNormal normal (paths watching.jobs)
watching-AreNormal = (docs-normal, (home-normal, tt))

reconcile_exact_example :
    let w' =
      reconcile counting normal in_order (notes ∷ docs ∷ []) tt true (str "source") watching in
    ((x : Str)
      → contains (tagged (str "source") w'.jobs) x ≡ contains (map normal (notes ∷ docs ∷ [])) x)
    × (others (str "source") w'.jobs ≡ others (str "source") watching.jobs)
    × (gone : List Str) × (new : List Str) × IsDifference gone
        (tagged (str "source") watching.jobs)
        (map normal (notes ∷ docs ∷ []))
    × IsDifference new (map normal (notes ∷ docs ∷ [])) (tagged (str "source") watching.jobs)
    × (w'.observer
        ≡ started counting true new (stopped counting gone watching.jobs watching.observer))
reconcile_exact_example =
    reconcile_exact counting normal in_order in_order-IsOrder normal_idem (notes ∷ docs ∷ []) tt
      true (str "source") watching watching-IsSingle watching-AreNormal

abbrev idle : WatchWorker counting Unit
idle = record { observer = 0; jobs = [] }

config_watch_lost_example :
    let w1 = add_watch counting normal in_order docs tt false (str "config") false idle in
    let w2 = reconcile counting normal in_order (docs ∷ []) tt true (str "source") w1 in
    let w3 = reconcile counting normal in_order [] tt true (str "source") w2 in
    (tagged (str "config") w3.jobs ≡ [])
    × (tagged (str "source") w3.jobs ≡ docs ∷ [])
    × (w3.observer ≡ counting.unschedule 2 0)
config_watch_lost_example =
    config_watch_lost counting normal in_order in_order-IsOrder docs docs-normal tt idle refl

-- Two paths, one of them changed three times.
abbrev saves : List (Str × ℕ)
saves = (plan, 100) ∷ (docs, 101) ∷ (plan, 102) ∷ (plan, 130) ∷ []

process_all-of_path_example :
    (of_path plan (process_all 20 saves []) ≡ greedy 20 (get [] plan) (of_path plan saves))
    × AreSpaced 20 (get [] plan) (of_path plan (process_all 20 saves []))
process_all-of_path_example = process_all-of_path 20 plan saves []
