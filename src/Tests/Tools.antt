-- ===== src/Tests/Tools.antt =====
-- The theorems on the tools of the MCP server at concrete calls.
use context_os.Base.{
  Bool, inr, true, false, none, some, [], ◌∷◌, ◌++◌, ◌≡◌, ◌≢◌, ◌==◌, refl, sym, nat_eq, list_eq,
  list_beq, if◌then◌else◌, beq_of_eq, beq_of_ne,
}
use context_os.Base.Lists.{any, filter}
use context_os.Base.Text.{Str, str}
use context_os.Base.Utf8.{encode}
use context_os.Paths.Pure.{slash, join, is_absolute, names, names_by, split_on, is_name}
use context_os.Paths.Normalize.{Host, path_normalize}
use context_os.Configure.Sources.{parse_config, is_path_in_scope, add_sources}
use context_os.Configure.Grant.{Answer, ScopeGrant, ensure_scope}
use context_os.Store.Commands.{Bytes}
use context_os.Audit.{ok, then_on}
use context_os.Mcp.{
  Reply, Request, Server, read_text_file, read_file, write_file, create_file, delete_file,
  move_file,
}
use context_os.Mcp.Guarded.{Leaves}
use context_os.Mcp.Tools.{tools_guarded}
use context_os.Mcp.Contents.{IsDisk}
use context_os.Mcp.Written.{written-read}
use context_os.Mcp.Elsewhere.{IsWritable, create-elsewhere}
use context_os.Tests.Worlds.{plain_host, plain-normal, plain_yaml, in_order, plan, is_home_dir}
use context_os.Tests.Mirrors.{toy}
use context_os.Tests.Versions.{mirrors}
use context_os.Tests.Rollbacks.{flat, no_logs, world}

flat-IsDisk : IsDisk flat
flat-IsDisk = record {
  place = λ p. p;
  read-write = λ p q content d fine same. rw (beq_of_eq p q same) refl;
  read-write_other = λ p q content d apart. rw (beq_of_ne p q apart) refl;
  read-make_parent = λ p q d. refl;
}

abbrev server : Server plain_yaml toy flat
server = record {
  config = record { config = some (record { sources = [] }); snapshot = none };
  hints = [];
  world = world;
}

-- The client says yes, and there is no database.
abbrev call : Request
call = record {
  answer = Answer.accepted true;
  second_answer = Answer.declined;
  session_id = str "7";
  now = 0;
  ttl_seconds = 9;
  database = false;
}

abbrev no_text : Bytes → Str
no_text raw = []

tools_guarded_example :
    Leaves plain_host mirrors plain_yaml toy no_logs flat is_home_dir in_order no_text server (
      read_file plain_host mirrors plain_yaml toy no_logs flat is_home_dir in_order no_text plan
        call server)
    × Leaves plain_host mirrors plain_yaml toy no_logs flat is_home_dir in_order no_text server (
        write_file plain_host mirrors plain_yaml toy no_logs flat is_home_dir in_order no_text plan
          (str "hi")
          none
          call
          server)
    × Leaves plain_host mirrors plain_yaml toy no_logs flat is_home_dir in_order no_text server (
        create_file plain_host mirrors plain_yaml toy no_logs flat is_home_dir in_order no_text plan
          (str "hi")
          call
          server)
    × Leaves plain_host mirrors plain_yaml toy no_logs flat is_home_dir in_order no_text server (
        delete_file plain_host mirrors plain_yaml toy no_logs flat is_home_dir in_order no_text plan
          none call server)
    × Leaves plain_host mirrors plain_yaml toy no_logs flat is_home_dir in_order no_text server (
        move_file plain_host mirrors plain_yaml toy no_logs flat is_home_dir in_order no_text plan
          (str "/b")
          call
          server)
tools_guarded_example =
    tools_guarded plain_host mirrors plain_yaml toy no_logs flat is_home_dir in_order no_text plan
      (str "/b") (str "hi") none call server

created :
    (create_file plain_host mirrors plain_yaml toy no_logs flat is_home_dir in_order no_text plan
      (str "hi")
      call
      server).0
    ≡ ok (Reply.done true)
unfolding create_file parse_config is_path_in_scope any then_on encode add_sources
created = refl

plan-place : flat-IsDisk.place plan ≡ flat-IsDisk.place (path_normalize plain_host plan)
unfolding flat-IsDisk is_absolute join names names_by split_on is_name list_beq filter
plan-place = sym (plain-normal plan refl refl)

written-read_example :
    (read_text_file plain_host no_text plan
      (create_file plain_host mirrors plain_yaml toy no_logs flat is_home_dir in_order no_text plan
        (str "hi")
        call
        server).1.world).0
    ≡ ok (str "hi", false)
written-read_example =
    written-read plain_host mirrors plain_yaml toy no_logs flat is_home_dir in_order no_text
      flat-IsDisk plan (str "hi") none call server true
      (create_file plain_host mirrors plain_yaml toy no_logs flat is_home_dir in_order no_text plan
        (str "hi") call server)
      plan-place (inr refl) created

-- A host on which "~" is "/home/ann".
abbrev ann_host : Host
ann_host = record {
  expanduser = λ s. elim s [ [] ↦ [] | c ∷ t ↦ if c == b'~' then str "/home/ann" ++ t else c ∷ t ];
  resolve = λ s. slash ∷ join (names s);
}

abbrev tilde : Str
tilde = str "~/a.md"

abbrev granted : ScopeGrant
granted = record { allowed = true; pending_path = some tilde }

asked : ensure_scope ann_host plain_yaml in_order tilde call.answer server.config ≡ some granted
unfolding ensure_scope parse_config is_path_in_scope any
asked = refl

encoded : encode (str "hi") ≡ some (str "hi")
unfolding encode
encoded = refl

tilde-normal : path_normalize ann_host tilde ≡ str "/home/ann/a.md"
unfolding path_normalize is_absolute join names names_by split_on is_name list_beq filter
tilde-normal = refl

elsewhere : flat-IsDisk.place tilde ≢ flat-IsDisk.place (path_normalize ann_host tilde)
unfolding flat-IsDisk
elsewhere h = cc tilde-normal

flat-IsWritable :
    IsWritable ann_host mirrors plain_yaml toy no_logs flat is_home_dir in_order no_text flat-IsDisk
      tilde
flat-IsWritable = (λ d. refl, λ content d. refl)

create-elsewhere_example :
    let (answer, s') =
      create_file ann_host mirrors plain_yaml toy no_logs flat is_home_dir in_order no_text tilde
        (str "hi")
        call
        server in
    (p : Bool) × (answer ≡ ok (Reply.done p))
    × (flat.read_bytes tilde s'.world.disk ≡ some (str "hi"))
    × (flat.read_bytes (path_normalize ann_host tilde) s'.world.disk
        ≡ flat.read_bytes (path_normalize ann_host tilde) server.world.disk)
create-elsewhere_example =
    create-elsewhere ann_host mirrors plain_yaml toy no_logs flat is_home_dir in_order no_text
      flat-IsDisk tilde (str "hi") (str "hi") call server granted asked refl elsewhere
      flat-IsWritable encoded
