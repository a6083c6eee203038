-- ===== src/GitOps.antt =====
-- src/obsidian_git_sync/git_ops.py: the wrapper of the `git` command, one call for each method.

pub mod Cache
use obsidian_git_sync_mcp.Common.{
  Bool, true, false, not, ◌&&◌, Option, none, some, List, [], ◌∷◌, ◌++◌, if◌then◌else◌, Run,
  returned, raised, Exn, Exec, timeout_expired, ◌*◌, ℕ, ◌>>=◌, pure,
}
use obsidian_git_sync_mcp.Text.{Text, codes, nonempty, strip}
use obsidian_git_sync_mcp.Numeral.{pos, second}
use obsidian_git_sync_mcp.FilePath.{FilePath, path_of, child_text, path_text}
use obsidian_git_sync_mcp.Host.{
  Env, Io, Trace, GitResult, is_ok, Reply, exited, timed_out, failed, Action, ran, logged, looked,
  git_timed_out,
}

-- `DEFAULT_TIMEOUT`, in ticks
unfoldable pub default_timeout : ℕ
unfolding second
default_timeout = 120 * second

pub record GitOps : Type 0 where
  pub vault : FilePath
  pub timeout : ℕ
  pub author_name : Option Text
  pub author_email : Option Text
  pub credential_helper : Option Text
  pub git_dir_cache : Option FilePath

-- `if s:` for a text that may be `None`
unfoldable pub truthy : Option Text → Bool
unfolding nonempty
truthy none = false
truthy (some s) = nonempty s

-- `-c key=value`
unfoldable pub setting : Text → Option Text → List Text
unfolding nonempty
setting key none = []
setting key (some v) = if nonempty v then codes "-c" ∷ (key ++ b'=' ∷ v) ∷ [] else []

unfoldable pub identity_args : GitOps → List Text
unfolding setting
identity_args g =
    setting (codes "user.name") g.author_name ++ setting (codes "user.email") g.author_email

unfoldable pub credential_args : GitOps → List Text
unfolding nonempty
credential_args g = elim g.credential_helper [
  | none ↦ []
  | some helper ↦
      if nonempty helper
      then codes "-c"
        ∷ codes "credential.helper="
        ∷ codes "-c"
        ∷ (codes "credential.helper=" ++ helper)
        ∷ []
      else []
]

-- The arguments that every command begins with.
unfoldable pub argv : GitOps → List Text → List Text
argv g args = codes "-C" ∷ path_text g.vault ∷ args

module _ (env : Env) (g : GitOps) where
  unfoldable pub run : List Text → Io GitResult
  unfolding argv
  run args t =
      let line = argv g args in
      elim (env.git t line) [
        | exited r ↦ returned r (ran line (exited r) ∷ t)
        | timed_out ↦ raised timeout_expired (logged git_timed_out ∷ ran line timed_out ∷ t)
        | failed e ↦ raised e (ran line (failed e) ∷ t)
      ]

  unfoldable pub add : List Text → Io GitResult
  add paths = run (codes "add" ∷ codes "-A" ∷ codes "--" ∷ paths)

  unfoldable pub add_all : Io GitResult
  add_all = run (codes "add" ∷ codes "-A" ∷ [])

  unfoldable pub has_staged : Io Bool
  unfolding is_ok
  has_staged = do
    r ← run (codes "diff" ∷ codes "--cached" ∷ codes "--quiet" ∷ [])
    pure (not (is_ok r))

  unfoldable pub is_dirty : Io Bool
  unfolding nonempty
  is_dirty = do
    r ← run (codes "status" ∷ codes "--porcelain" ∷ [])
    pure (nonempty (strip r.stdout))

  unfoldable pub commit : Text → Io GitResult
  unfolding has_staged
  commit message = do
    staged ← has_staged
    elim staged [
      | true ↦ run (identity_args g ++ (codes "commit" ∷ codes "-m" ∷ message ∷ []))
      | false ↦ pure (record { rc = pos 0; stdout = []; stderr = codes "nothing staged" })
    ]

  unfoldable pub fetch : Text → Io GitResult
  fetch remote = run (credential_args g ++ (codes "fetch" ∷ remote ∷ []))

  unfoldable pub rebase_theirs : Text → Text → Io GitResult
  rebase_theirs remote branch =
      run (codes "rebase" ∷ codes "-X" ∷ codes "theirs" ∷ (remote ++ b'/' ∷ branch) ∷ [])

  unfoldable pub rebase_abort : Io GitResult
  rebase_abort = run (codes "rebase" ∷ codes "--abort" ∷ [])

  unfoldable pub push : Text → Text → Io GitResult
  push remote branch = run (credential_args g ++ (codes "push" ∷ remote ∷ branch ∷ []))

  unfoldable pub current_branch : Io (Option Text)
  current_branch = do
    r ← run (codes "rev-parse" ∷ codes "--abbrev-ref" ∷ codes "HEAD" ∷ [])
    let name = strip r.stdout
    pure (if is_ok r && nonempty name then some name else none)

  unfoldable pub remote_exists : Text → Io Bool
  unfolding is_ok
  remote_exists remote = do r ← run (codes "remote" ∷ codes "get-url" ∷ remote ∷ []); pure (is_ok r)

-- The cache is set before git is asked, so a call that raises leaves `<vault>/.git` in it.
unfoldable pub git_dir : Env → Exec (GitOps × Trace) FilePath
git_dir env (g, t) = elim g.git_dir_cache [
  | some d ↦ returned d (g, t)
  | none ↦
      let dot_git = child_text g.vault (codes ".git") in
      let g' = record g { git_dir_cache = some dot_git } in
      if env.is_dir t dot_git
      then returned dot_git (g', looked dot_git ∷ t)
      else elim (run env g' (codes "rev-parse" ∷ codes "--absolute-git-dir" ∷ [])
          (looked dot_git ∷ t)) [
            | returned r t' ↦
                let out = strip r.stdout in
                if is_ok r && nonempty out
                then returned (path_of out) (record g { git_dir_cache = some (path_of out) }, t')
                else returned dot_git (g', t')
            | raised e t' ↦ raised e (g', t')
          ]
]
