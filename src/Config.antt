-- ===== src/Config.antt =====
-- src/obsidian_git_sync/config.py: the raw settings, their accessors and the check at startup.
pub mod Validated
pub mod Secrecy
pub mod Padded
pub mod Words
pub mod Asks
pub mod Decides
pub mod Checks
pub mod Deployment
pub mod Accepted
use obsidian_git_sync_mcp.Common.{
  ℕ, Bool, true, false, not, ◌&&◌, ◌||◌, Option, none, some, List, [], ◌∷◌, ◌++◌, if◌then◌else◌,
  returned, raised, throw, value_error, pure, ◌>>=◌, ◌>>◌,
}
use obsidian_git_sync_mcp.Text.{Text, codes, member, nonempty, strip, lower}
use obsidian_git_sync_mcp.Numeral.{ℤ, int_of, int_le_zero, Float, float_le_zero}
use obsidian_git_sync_mcp.FilePath.{FilePath, child_text, path_text}
use obsidian_git_sync_mcp.Host.{
  Env, Io, GitResult, is_ok, ran, exited, failed, looked, got, refused, SplitUrl,
}
use obsidian_git_sync_mcp.GitOps.{truthy, setting}

-- The `VAULT_GIT_*` variables, raw.
pub record Settings : Type 0 where
  pub enabled : Text
  pub sweep_interval : Text
  pub remote : Text
  pub branch : Text
  pub push_debounce : Text
  pub push_max_interval : Text
  pub author_name : Text
  pub author_email : Text
  pub heartbeat_url : Text
  pub stamp : Text
  pub token : Text

-- `_TRUTHY` and `_FALSEY`
abbrev pub truthy_words : List Text
truthy_words = codes "1" ∷ codes "true" ∷ codes "yes" ∷ codes "on" ∷ []

abbrev pub falsey_words : List Text
falsey_words = codes "0" ∷ codes "false" ∷ codes "no" ∷ codes "off" ∷ []

unfoldable pub is_truthy : Text → Bool → Bool
unfolding member lower
is_truthy raw default =
    let value = lower (strip raw) in
    if member value truthy_words then true else if member value falsey_words then false else default

unfoldable pub is_enabled : Settings → Bool
unfolding is_truthy
is_enabled c = is_truthy c.enabled false

unfoldable pub stamp_enabled : Settings → Bool
unfolding is_truthy
stamp_enabled c = is_truthy c.stamp true

-- `none` is the `ValueError` of `int` and of `float`.
unfoldable pub sweep_interval : Settings → Option ℤ
sweep_interval c = int_of c.sweep_interval

unfoldable pub remote : Settings → Text
remote c = strip c.remote

unfoldable pub branch : Settings → Text
branch c = strip c.branch

unfoldable pub push_debounce : Env → Settings → Option Float
push_debounce env c = env.float_of c.push_debounce

unfoldable pub push_max_interval : Env → Settings → Option Float
push_max_interval env c = env.float_of c.push_max_interval

-- `s or None`
unfoldable pub or_none : Text → Option Text
unfolding nonempty
or_none s = if nonempty s then some s else none

unfoldable pub author_name : Settings → Option Text
unfolding or_none
author_name c = or_none (strip c.author_name)

unfoldable pub author_email : Settings → Option Text
unfolding or_none
author_email c = or_none (strip c.author_email)

unfoldable pub token : Settings → Text
token c = strip c.token

unfoldable pub heartbeat_url : Settings → Text
heartbeat_url c = strip c.heartbeat_url

-- What the check refuses.
pub data Problem : Type 0 where
  missing_vault no_git_entry : FilePath → Problem
  interval_not_integer interval_not_positive : Problem
  not_a_number not_positive : Text → Problem
  unknown_remote : Text → Problem
  no_credential no_identity malformed_port not_http_url : Problem

unfoldable pub message : Problem → Text
message (missing_vault p) =
    codes "git-sync is enabled but VAULT_PATH does not exist or is not a directory: " ++ path_text p
message (no_git_entry p) =
    codes "git-sync is enabled but VAULT_PATH is not a git working tree (no .git found): "
    ++ path_text p
message interval_not_integer = codes "VAULT_GIT_SWEEP_INTERVAL must be an integer number of seconds"
message interval_not_positive = codes "VAULT_GIT_SWEEP_INTERVAL must be a positive integer"
message (not_a_number name) = name ++ codes " must be a number of seconds"
message (not_positive name) = name ++ codes " must be a positive number of seconds"
message (unknown_remote name) =
    codes "git-sync is enabled but VAULT_GIT_REMOTE '"
    ++ (name ++ codes "' does not exist in the vault at VAULT_PATH")
message no_credential =
    codes "git-sync is enabled with an HTTPS VAULT_GIT_REMOTE but no push "
    ++ codes "credential is configured; set VAULT_GIT_TOKEN"
message no_identity =
    codes "git-sync is enabled but git cannot resolve a committer identity; set "
    ++ codes "VAULT_GIT_GIT_AUTHOR_NAME and VAULT_GIT_GIT_AUTHOR_EMAIL"
message malformed_port = codes "VAULT_GIT_HEARTBEAT_URL has a malformed port"
message not_http_url = codes "VAULT_GIT_HEARTBEAT_URL must be an http(s) URL with a host"

unfoldable pub refuse : Problem → Io (Unit {0})
refuse p = throw (value_error (message p))

-- `if b: raise ValueError(...)`
unfoldable pub refuse_if : Bool → Problem → Io (Unit {0})
unfolding refuse
refuse_if b p = if b then refuse p else pure tt

unfoldable pub is_http : Text → Bool
unfolding member lower
is_http scheme = member (lower scheme) (codes "http" ∷ codes "https" ∷ [])

unfoldable pub check_interval : Settings → Io (Unit {0})
unfolding refuse_if
check_interval c = elim (int_of c.sweep_interval) [
  | none ↦ refuse interval_not_integer
  | some interval ↦ refuse_if (int_le_zero interval) interval_not_positive
]

-- `identity_args`, as the worker's commits carry them
unfoldable pub identity_overrides : Settings → List Text
unfolding setting
identity_overrides c =
    setting (codes "user.name") (author_name c) ++ setting (codes "user.email") (author_email c)

module _ (env : Env) where
  -- One round of the loop over the two push timings.
  unfoldable pub check_seconds : Text → Text → Io (Unit {0})
  unfolding refuse_if float_le_zero
  check_seconds name raw = elim (env.float_of raw) [
    | none ↦ refuse (not_a_number name)
    | some value ↦ refuse_if (float_le_zero value) (not_positive name)
  ]

  -- `subprocess.run(["git", "-C", str(VAULT_PATH), *args])`, with no time limit
  unfoldable pub run_untimed : FilePath → List Text → Io GitResult
  run_untimed vault args t =
      let line = codes "-C" ∷ path_text vault ∷ args in
      elim (env.git_untimed t line) [
        | got r ↦ returned r (ran line (exited r) ∷ t)
        | refused e ↦ raised e (ran line (failed e) ∷ t)
      ]

  unfoldable pub check_vault : FilePath → Io (Unit {0})
  unfolding refuse_if
  check_vault vault = do
    is_dir ← (λ t. returned (env.is_dir t vault) (looked vault ∷ t))
    refuse_if (not is_dir) (missing_vault vault)
    has_git ←
        (λ t. let p = child_text vault (codes ".git") in returned (env.exists t p) (looked p ∷ t))
    refuse_if (not has_git) (no_git_entry vault)

  unfoldable pub check_credential : Settings → Text → Io (Unit {0})
  unfolding refuse_if is_http truthy
  check_credential c url t = elim (env.urlsplit url) [
    | refused e ↦ raised e t
    | got parsed ↦
        refuse_if
          (is_http parsed.scheme && (not (truthy parsed.username) && not (nonempty (token c))))
          no_credential t
  ]

  unfoldable pub check_remote : Settings → FilePath → Io (Unit {0})
  unfolding refuse_if check_credential run_untimed
  check_remote c vault =
      if nonempty (remote c)
      then (do
        r ← run_untimed vault (codes "remote" ∷ codes "get-url" ∷ remote c ∷ [])
        refuse_if (not (is_ok r)) (unknown_remote (remote c))
        check_credential c (strip r.stdout))
      else pure tt

  unfoldable pub check_identity : Settings → FilePath → Io (Unit {0})
  unfolding refuse_if run_untimed identity_overrides
  check_identity c vault = do
    r ← run_untimed vault (identity_overrides c ++ (codes "var" ∷ codes "GIT_AUTHOR_IDENT" ∷ []))
    refuse_if (not (is_ok r)) no_identity

  unfoldable pub check_heartbeat : Settings → Io (Unit {0})
  unfolding refuse_if is_http truthy
  check_heartbeat c t =
      if nonempty (heartbeat_url c)
      then elim (env.urlsplit (heartbeat_url c)) [
        | refused e ↦ elim e [ value_error m ↦ refuse malformed_port t | other ↦ raised other t ]
        | got parsed ↦ elim parsed.port [
          | none ↦ refuse malformed_port t
          | some port ↦
              refuse_if (not (is_http parsed.scheme) || not (truthy parsed.hostname)) not_http_url t
        ]
      ]
      else returned tt t

  unfoldable pub validate_gitsync : Settings → FilePath → Io (Unit {0})
  unfolding check_vault check_interval check_seconds check_remote check_identity check_heartbeat
  validate_gitsync c vault = if not (is_enabled c) then pure tt else (do
    check_vault vault
    check_interval c
    check_seconds (codes "VAULT_GIT_PUSH_DEBOUNCE") c.push_debounce
    check_seconds (codes "VAULT_GIT_PUSH_MAX_INTERVAL") c.push_max_interval
    check_remote c vault
    check_identity c vault
    check_heartbeat c)
