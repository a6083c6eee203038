-- ===== src/Config/Accepted.antt =====
-- src/obsidian_git_sync/config.py: what the check of the settings accepts, written out.
use obsidian_git_sync_mcp.Common.{◌≡◌, ◌↔◌, sym, subst, true, ◌∷◌, Run, returned, Returns}
use obsidian_git_sync_mcp.Text.{codes}
use obsidian_git_sync_mcp.Numeral.{int_of}
use obsidian_git_sync_mcp.FilePath.{FilePath}
use obsidian_git_sync_mcp.Host.{Env, Trace, looked}
use obsidian_git_sync_mcp.Config.{
  Settings, is_enabled, check_interval, check_seconds, check_vault, check_remote, check_identity,
  check_heartbeat, validate_gitsync,
}
use obsidian_git_sync_mcp.Config.Validated.{IsAccepted, IsPositive}
use obsidian_git_sync_mcp.Config.Decides.{both}
use obsidian_git_sync_mcp.Config.Checks.{
  dot_git, HasVault, vault-Decides, interval-Decides, seconds-Decides,
}
use obsidian_git_sync_mcp.Config.Deployment.{
  HasRemote, behind_remote, remote-Decides, HasIdentity, identity-Decides, HasHeartbeat,
  heartbeat-Decides,
}

module _ (env : Env) (c : Settings) (vault : FilePath) where
  -- All that the check asks for: each question is asked of the world as the questions before left it.
  abbrev pub IsDeployable : Trace → Type 0
  IsDeployable t =
      let t1 = looked (dot_git env c vault) ∷ looked vault ∷ t in
      let t2 = behind_remote env c vault t1 in
      HasVault env c vault t
      × (IsPositive (int_of c.sweep_interval)
          × (IsAccepted (env.float_of c.push_debounce)
              × (IsAccepted (env.float_of c.push_max_interval)
                  × (HasRemote env c vault t1
                      × (HasIdentity env c vault t2 × HasHeartbeat env c vault)))))

  -- The check of an enabled extension's settings returns exactly if: the vault is a directory with an
  -- entry `.git`; the interval is a positive whole number; the push timings are positive, inf or nan;
  -- a configured remote exists, and is not over HTTP or has a user in its URL or a token beside it;
  -- git resolves an identity; and a configured heartbeat URL is over HTTP, with a host and no
  -- malformed port.
  pub validate_gitsync_iff :
      (t : Trace) → is_enabled c ≡ true → Returns (validate_gitsync env c vault t) ↔ IsDeployable t
  unfolding validate_gitsync
  validate_gitsync_iff t on =
      let t1 = looked (dot_git env c vault) ∷ looked vault ∷ t in
      let t2 = behind_remote env c vault t1 in
      let (there, back) = both (check_vault env vault) _ (vault-Decides env c vault t) (
        both (check_interval c) _ (interval-Decides env c vault t1) (
          both (check_seconds env (codes "VAULT_GIT_PUSH_DEBOUNCE") c.push_debounce) _
            (seconds-Decides env c vault _ c.push_debounce t1)
            (both (check_seconds env (codes "VAULT_GIT_PUSH_MAX_INTERVAL") c.push_max_interval) _
              (seconds-Decides env c vault _ c.push_max_interval t1)
              (both (check_remote env c vault) _ (remote-Decides env c vault t1) (
                both (check_identity env c vault) (check_heartbeat env c)
                  (identity-Decides env c vault t2) (heartbeat-Decides env c vault _)))))) in
      rw (on, validate_gitsync) (back, λ d. returns (there d))
    where
      returns : {m : Run Trace (Unit {0})} {u : Trace} → m ≡ returned tt u → Returns m
      returns e = subst Returns (sym e) tt
