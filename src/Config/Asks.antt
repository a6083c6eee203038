-- ===== src/Config/Asks.antt =====
-- src/obsidian_git_sync/config.py: the check of the settings only asks git: none of its commands stages,
-- commits, fetches, rebases or pushes.
use obsidian_git_sync_mcp.Common.{
  ◌≡◌, refl, ◌∙◌, Bool, true, false, not, List, [], ◌∷◌, ◌++◌, returned, raised, final,
  append_assoc, arith,
}
use obsidian_git_sync_mcp.Common.Rules.{Keeps, bind, seq, pick}
use obsidian_git_sync_mcp.Text.{Text, codes, nonempty, strip}
use obsidian_git_sync_mcp.FilePath.{FilePath, path_text}
use obsidian_git_sync_mcp.Host
use obsidian_git_sync_mcp.Host.{
  Env, Io, Trace, Answer, got, refused, GitResult, is_ok, exited, failed,
}
use obsidian_git_sync_mcp.Config
use obsidian_git_sync_mcp.Config.{Settings}
use obsidian_git_sync_mcp.History.{Command, commands, operands, verb, verb_of, other}
use obsidian_git_sync_mcp.History.Verbs.{operands-setting}

verb-untimed :
    (vault : FilePath) (args : List Text)
    → verb (codes "-C" ∷ path_text vault ∷ args) ≡ verb_of (operands args)
unfolding verb operands
verb-untimed vault args = refl

verb-identity :
    (c : Settings)
    → verb_of
        (operands (Config.identity_overrides c ++ (codes "var" ∷ codes "GIT_AUTHOR_IDENT" ∷ [])))
      ≡ other
unfolding Config.identity_overrides
verb-identity c =
    rw append_assoc (rw operands-setting (rw operands-setting (unfold verb_of operands in refl)))

-- What is said of the commands, and is kept by any question.
module _ (P : List Command → Type 0)
    (asked : (c : Command) (cs : List Command) → verb c.line ≡ other → P cs → P (c ∷ cs))
    (env : Env) (c : Settings) (vault : FilePath) where
  abbrev Kept : Trace → Type 0
  Kept t = P (commands t)

  refuses : (b : Bool) (p : Config.Problem) → Keeps Kept (Config.refuse_if b p)
  unfolding Config.refuse_if Config.refuse
  refuses true p t k = k
  refuses false p t k = k

  run_untimed-Kept :
      (args : List Text)
      → verb_of (operands args) ≡ other
      → Keeps Kept (Config.run_untimed env vault args)
  unfolding Config.run_untimed commands
  run_untimed-Kept args v t k = go (env.git_untimed t line)
    where
      line : List Text
      line = codes "-C" ∷ path_text vault ∷ args

      go :
          (a : Answer GitResult)
          → Kept (
              final {S = Trace} {A = GitResult} (elim a [
                | got r ↦ returned r (Host.ran line (exited r) ∷ t)
                | refused e ↦ raised e (Host.ran line (failed e) ∷ t)
              ]))
      go (got r) =
          asked (record { line = line; reply = exited r }) (commands t)
            (verb-untimed vault args ∙ v) k
      go (refused e) =
          asked (record { line = line; reply = failed e }) (commands t)
            (verb-untimed vault args ∙ v) k

  check_vault-Kept : Keeps Kept (Config.check_vault env vault)
  unfolding Config.check_vault Config.refuse Config.refuse_if commands
  check_vault-Kept t k = ground arith

  check_interval-Kept : Keeps Kept (Config.check_interval c)
  unfolding Config.check_interval Config.refuse Config.refuse_if
  check_interval-Kept t k = ground arith

  check_seconds-Kept : (name raw : Text) → Keeps Kept (Config.check_seconds env name raw)
  unfolding Config.check_seconds Config.refuse Config.refuse_if
  check_seconds-Kept name raw t k = ground arith

  check_credential-Kept : (url : Text) → Keeps Kept (Config.check_credential env c url)
  unfolding Config.check_credential Config.refuse Config.refuse_if
  check_credential-Kept url t k = ground arith

  check_heartbeat-Kept : Keeps Kept (Config.check_heartbeat env c)
  unfolding Config.check_heartbeat Config.refuse Config.refuse_if
  check_heartbeat-Kept t k = ground arith

  check_remote-Kept : Keeps Kept (Config.check_remote env c vault)
  unfolding Config.check_remote
  check_remote-Kept =
      pick Kept (nonempty (Config.remote c)) _ _
        (bind Kept
          (Config.run_untimed env vault (codes "remote" ∷ codes "get-url" ∷ Config.remote c ∷ [])) _
          (run_untimed-Kept _ (unfold verb_of operands in refl))
          λ r.
            seq Kept (Config.refuse_if (not (is_ok r)) (Config.unknown_remote (Config.remote c))) _
              (refuses (not (is_ok r)) (Config.unknown_remote (Config.remote c)))
              (check_credential-Kept (strip r.stdout)))
        (λ t k. k)

  check_identity-Kept : Keeps Kept (Config.check_identity env c vault)
  unfolding Config.check_identity
  check_identity-Kept =
      bind Kept
        (Config.run_untimed env vault
          (Config.identity_overrides c ++ (codes "var" ∷ codes "GIT_AUTHOR_IDENT" ∷ [])))
        _ (run_untimed-Kept _ (verb-identity c)) λ r. refuses (not (is_ok r)) Config.no_identity

  pub validate_gitsync-Kept : Keeps Kept (Config.validate_gitsync env c vault)
  unfolding Config.validate_gitsync
  validate_gitsync-Kept =
      pick Kept (not (Config.is_enabled c)) _ _ (λ t k. k)
        (seq Kept (Config.check_vault env vault) _ check_vault-Kept (
          seq Kept (Config.check_interval c) _ check_interval-Kept (
            seq Kept (Config.check_seconds env (codes "VAULT_GIT_PUSH_DEBOUNCE") c.push_debounce) _
              (check_seconds-Kept (codes "VAULT_GIT_PUSH_DEBOUNCE") c.push_debounce)
              (seq Kept
                (Config.check_seconds env (codes "VAULT_GIT_PUSH_MAX_INTERVAL") c.push_max_interval)
                _ (check_seconds-Kept (codes "VAULT_GIT_PUSH_MAX_INTERVAL") c.push_max_interval)
                (seq Kept (Config.check_remote env c vault) _ check_remote-Kept (
                  seq Kept (Config.check_identity env c vault) _ check_identity-Kept
                    check_heartbeat-Kept))))))
