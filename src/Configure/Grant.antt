-- ===== src/Configure/Grant.antt =====
-- app/mcp/guardrail.py: the scope check of a tool call, and the grant that it returns. What the
-- client answers to the prompt is an input.
use context_os.Base.{
  Bool, true, false, not, ◌||◌, ◌&&◌, Option, none, some, List, [], ◌∷◌, nat_eq, list_eq,
  if◌then◌else◌, ◌≡◌, refl, ◌∙◌, ap, arith, Bool-cases, inl, inr,
}
use context_os.Base.Lists.{any}
use context_os.Base.Sets.{IsOrder}
use context_os.Base.Text.{Str}
use context_os.Paths.Pure.{is_relative_to}
use context_os.Paths.Normalize.{Host, IsHost}
use context_os.Configure.Sources.{
  Config, Yaml, IsYaml, ConfigFiles, is_path_in_scope, parse_config, add_sources,
}
use context_os.Configure.Scope.{path_of, scope-downward}
use context_os.Configure.Snapshot.{◌>>=◌}
use context_os.Configure.Stored.{add_sources_lem}

-- What `asyncio.wait_for(ctx.elicit(...))` comes to.
pub data Answer : Type 0 where
  accepted : (value : Bool) → Answer
  declined : Answer
  cancelled : Answer
  timed_out : Answer
  raised : Answer

pub record ScopeGrant : Type 0 where
  pub allowed : Bool
  pub pending_path : Option Str

-- The grant of a path that is out of scope.
unfoldable pub grant_of : Answer → Str → ScopeGrant
grant_of (accepted true) path = record { allowed = true; pending_path = some path }
grant_of _ path = record { allowed = false; pending_path = none }

unfoldable pub says_yes : Answer → Bool
says_yes (accepted value) = value
says_yes _ = false

grant_of_lem :
    (answer : Answer) (path : Str)
    → grant_of answer path ≡ record {
      allowed = says_yes answer;
      pending_path = if says_yes answer then some path else none;
    }
unfolding grant_of says_yes
grant_of_lem (accepted true) path = refl
grant_of_lem (accepted false) path = refl
grant_of_lem declined path = refl
grant_of_lem cancelled path = refl
grant_of_lem timed_out path = refl
grant_of_lem raised path = refl

module _ (host : Host) (Y : Yaml) (iterate : List Str → List Str) where
  -- `none` where config.yaml cannot be read.
  unfoldable pub ensure_scope : Str → Answer → ConfigFiles Y → Option ScopeGrant
  unfolding grant_of
  ensure_scope path answer files = do
    config ← parse_config host Y false files
    some (
        if is_path_in_scope host config path
        then record { allowed = true; pending_path = none }
        else grant_of answer path)

  -- `commit` after `add_sources`: the pending path is cleared.
  unfoldable pub settled : ScopeGrant → Option (ConfigFiles Y) → Option (ScopeGrant × ConfigFiles Y)
  settled grant none = none
  settled grant (some written) = some (record grant { pending_path = none }, written)

  unfoldable pub commit_path :
      Option Str → ScopeGrant → ConfigFiles Y → Option (ScopeGrant × ConfigFiles Y)
  unfolding settled
  commit_path none grant files = some (grant, files)
  commit_path (some path) grant files = settled grant (add_sources host Y iterate (path ∷ []) files)

  unfoldable pub commit : ScopeGrant → ConfigFiles Y → Option (ScopeGrant × ConfigFiles Y)
  unfolding commit_path
  commit grant files = commit_path grant.pending_path grant files

  -- Where config.yaml reads as `config`, the check of a path allows the call exactly if the path
  -- is in scope or the client accepted with yes: a decline, a cancel, a timeout and an exception
  -- block it. The grant is pending exactly if the path was out of scope and was accepted.
  pub ensure_scope_lem :
      (path : Str) (answer : Answer) (files : ConfigFiles Y) (config : Config)
      → parse_config host Y false files ≡ some config
      → ensure_scope path answer files
        ≡ some (record {
          allowed = is_path_in_scope host config path || says_yes answer;
          pending_path =
              if not (is_path_in_scope host config path) && says_yes answer
              then some path
              else none;
        })
  unfolding ensure_scope is_path_in_scope
  ensure_scope_lem path answer files config h =
      rw (ensure_scope, h)
        (elim (Bool-cases (is_path_in_scope host config path)) [
          | inl e ↦ rw e refl
          | inr e ↦ rw e (ap some (grant_of_lem answer path))
        ])

  settled-again :
      (grant : ScopeGrant) (written : Option (ConfigFiles Y))
      → (do once ← settled grant written; commit once.0 once.1) ≡ settled grant written
  unfolding commit commit_path settled
  settled-again grant none = refl
  settled-again grant (some w) = refl

  commit_path_idem :
      (pending : Option Str) (grant : ScopeGrant) (files : ConfigFiles Y)
      → grant.pending_path ≡ pending
      → (do once ← commit_path pending grant files; commit once.0 once.1)
        ≡ commit_path pending grant files
  unfolding commit commit_path
  commit_path_idem none grant files h = rw h refl
  commit_path_idem (some p) grant files h =
      settled-again grant (add_sources host Y iterate (p ∷ []) files)

  -- A second commit of a grant writes nothing.
  pub commit_idem :
      (grant : ScopeGrant) (files : ConfigFiles Y)
      → (do once ← commit grant files; commit once.0 once.1) ≡ commit grant files
  unfolding commit
  commit_idem grant files = commit_path_idem grant.pending_path grant files refl

  settled-then :
      (grant : ScopeGrant) (written : Option (ConfigFiles Y)) (k : ConfigFiles Y → Option Bool)
      → (do done ← settled grant written; k done.1) ≡ (do w ← written; k w)
  unfolding settled
  settled-then grant none k = refl
  settled-then grant (some w) k = refl

  -- Whether a path is in the scope of config.yaml.
  abbrev scope_of : Str → ConfigFiles Y → Option Bool
  scope_of q files = do now ← parse_config host Y false files; some (is_path_in_scope host now q)

  scope_of-read :
      (q : Str) (files : ConfigFiles Y) (config : Config)
      → parse_config host Y false files ≡ some config
      → scope_of q files ≡ some (is_path_in_scope host config q)
  scope_of-read q files config h = rw h refl

  module _ (is_host : IsHost host) (is_yaml : IsYaml Y) (order : IsOrder iterate) where
    commit-scope :
        (path q : Str) (files : ConfigFiles Y) (config : Config)
        → parse_config host Y false files ≡ some config
        → (do
          done ← commit (record { allowed = true; pending_path = some path }) files
          scope_of q done.1)
          ≡ some (
              is_path_in_scope host config q || is_relative_to (path_of host q) (path_of host path))
    unfolding commit commit_path
    commit-scope path q files config h =
        settled-then (record { allowed = true; pending_path = some path })
          (add_sources host Y iterate (path ∷ []) files) (scope_of q)
        ∙ add_sources_lem host is_host Y is_yaml iterate (path ∷ []) files config q order h
        ∙ ap some (unfold any in ground arith)

    commit-nothing :
        (allowed : Bool) (q : Str) (files : ConfigFiles Y)
        → (do
          done ← commit (record { allowed = allowed; pending_path = none }) files
          scope_of q done.1)
          ≡ scope_of q files
    unfolding commit commit_path
    commit-nothing allowed q files = refl

    -- Let config.yaml read as `config`. After the check of a path and the commit of its grant,
    -- whatever the client answered, config.yaml has exactly the scope of `config`, and, if the
    -- client accepted with yes, the path with what lies below it.
    pub ensure_scope-commit :
        (path q : Str) (answer : Answer) (files : ConfigFiles Y) (config : Config)
        → parse_config host Y false files ≡ some config
        → (do
          grant ← ensure_scope path answer files
          done ← commit grant files
          now ← parse_config host Y false done.1
          some (is_path_in_scope host now q))
          ≡ some (
              is_path_in_scope host config q
              || says_yes answer && is_relative_to (path_of host q) (path_of host path))
    ensure_scope-commit path q answer files config h =
        rw (ensure_scope_lem path answer files config h)
          (elim (Bool-cases (is_path_in_scope host config path)) [
            | inl old ↦ rw old (
                commit-nothing true q files
                ∙ scope_of-read q files config h
                ∙ ap some (ground (arith, scope-downward host config path q old)))
            | inr new ↦ elim (Bool-cases (says_yes answer)) [
              | inl accept ↦ rw (new, accept) (commit-scope path q files config h)
              | inr refuse ↦
                  rw (new, refuse)
                    (commit-nothing false q files
                      ∙ scope_of-read q files config h
                      ∙ ap some (ground arith))
            ]
          ])
