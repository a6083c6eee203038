-- ===== src/Config/Secrecy.antt =====
-- src/obsidian_git_sync/config.py: what the check takes from the token.
use obsidian_git_sync_mcp.Common.{
  ◌≡◌, ap, sym, ◌∙◌, ◌&&◌, Bool, Run, raised, [], ◌∷◌, ◌>>=◌, true, not, if◌then◌else◌, ◌>>◌, pure,
}
use obsidian_git_sync_mcp.Text.{Text, codes, nonempty, strip}
use obsidian_git_sync_mcp.FilePath.{FilePath}
use obsidian_git_sync_mcp.Host.{Env, Trace, Io, is_ok, got, refused}
use obsidian_git_sync_mcp.GitOps.{truthy}
use obsidian_git_sync_mcp.Config
use obsidian_git_sync_mcp.Config.{
  Settings, validate_gitsync, check_remote, check_credential, is_enabled, run_untimed, refuse_if,
  unknown_remote, is_http, no_credential, check_vault, check_interval, check_seconds,
  check_identity, check_heartbeat, identity_overrides,
}

module _ (env : Env) (c : Settings) (vault : FilePath) (a b : Text) (ha : nonempty (strip a) ≡ true)
    (hb : nonempty (strip b) ≡ true) where
  abbrev with_token : Text → Settings
  with_token x = record c { token = x }

  same_credential :
      (url : Text) (t : Trace)
      → check_credential env (with_token a) url t ≡ check_credential env (with_token b) url t
  unfolding check_credential Config.token
  same_credential url t =
      ap
        (λ (has : Bool). elim (env.urlsplit url) as (λ x. Run Trace (Unit {0})) [
          | refused e ↦ raised e t
          | got parsed ↦
              refuse_if (is_http parsed.scheme && (not (truthy parsed.username) && not has))
                no_credential t
        ])
        (ha ∙ sym hb)

  same_remote :
      (t : Trace)
      → check_remote env (with_token a) vault t ≡ check_remote env (with_token b) vault t
  unfolding check_remote Config.remote
  same_remote t =
      ap
        (λ (k : Text → Io (Unit {0})).
          (if nonempty (Config.remote c)
              then (do
                r ← run_untimed env vault (codes "remote" ∷ codes "get-url" ∷ Config.remote c ∷ [])
                refuse_if (not (is_ok r)) (unknown_remote (Config.remote c))
                k (strip r.stdout))
              else pure tt)
            t)
        (λ i url u. same_credential url u i)

  -- The check, with the part that looks at the remote left open.
  check_with : Io (Unit {0}) → Io (Unit {0})
  check_with m = if not (is_enabled c) then pure tt else (do
    check_vault env vault
    check_interval c
    check_seconds env (codes "VAULT_GIT_PUSH_DEBOUNCE") c.push_debounce
    check_seconds env (codes "VAULT_GIT_PUSH_MAX_INTERVAL") c.push_max_interval
    m
    check_identity env c vault
    check_heartbeat env c)

  -- The check of two settings that differ in nothing but a token that is not blank comes to the same
  -- result, with the same message where it refuses, and leaves the same trace.
  pub validate_gitsync_token :
      (t : Trace)
      → validate_gitsync env (with_token a) vault t ≡ validate_gitsync env (with_token b) vault t
  unfolding validate_gitsync check_with check_interval check_identity check_heartbeat
      identity_overrides is_enabled Config.sweep_interval Config.author_name Config.author_email
      Config.heartbeat_url
  validate_gitsync_token t = ap (λ (m : Io (Unit {0})). check_with m t) (λ i u. same_remote u i)
