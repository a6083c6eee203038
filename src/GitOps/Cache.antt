-- ===== src/GitOps/Cache.antt =====
-- src/obsidian_git_sync/git_ops.py: the cache of `git_dir`.
use obsidian_git_sync_mcp.Common.{
  ◌≡◌, refl, Bool-cases, Option-cases, inl, inr, ◌&&◌, some, arith, final, Run, returned, raised,
  if◌then◌else◌,
}
use obsidian_git_sync_mcp.Text.{codes, strip, nonempty}
use obsidian_git_sync_mcp.FilePath.{FilePath, path_of, child_text}
use obsidian_git_sync_mcp.Host.{Env, Trace, GitResult, is_ok}
use obsidian_git_sync_mcp.GitOps.{GitOps, git_dir, run}

abbrev Cached : GitOps × Trace → Type 0
Cached s = (d : FilePath) × (s.0.git_dir_cache ≡ some d)

asked :
    (env : Env) (g : GitOps) (dot_git : FilePath) (r : Run Trace GitResult)
    → let g' = record g { git_dir_cache = some dot_git } in
      Cached (
        final {S = GitOps × Trace} {A = FilePath} (elim r [
          | returned r t ↦
              let out = strip r.stdout in
              if is_ok r && nonempty out
              then returned (path_of out) (record g { git_dir_cache = some (path_of out) }, t)
              else returned dot_git (g', t)
          | raised e t ↦ raised e (g', t)
        ]))
asked env g dot_git (raised e t) = (dot_git, refl)
asked env g dot_git (returned r t) = elim (Bool-cases (is_ok r && nonempty (strip r.stdout))) [
  | inl e ↦ (path_of (strip r.stdout), rw e)
  | inr e ↦ (dot_git, rw e)
]

git_dir-Cached : (env : Env) (g : GitOps) (t : Trace) → Cached (final (git_dir env (g, t)))
unfolding git_dir
git_dir-Cached env g t = elim (Option-cases g.git_dir_cache) [
  | inr (d, e) ↦ (d, rw (e, git_dir) e)
  | inl e ↦
      let dot_git = child_text g.vault (codes ".git") in
      rw (e, git_dir)
        (elim (Bool-cases (env.is_dir t dot_git)) [
          | inl dir ↦ rw dir (dot_git, refl)
          | inr file ↦ rw file (asked env g dot_git (run env _ _ _))
        ])
]

known :
    (env : Env) (g : GitOps) (t : Trace) (d : FilePath)
    → g.git_dir_cache ≡ some d
    → git_dir env (g, t) ≡ returned d (g, t)
unfolding git_dir
known env g t d e = ground arith

-- After a first call, even one that raised, a second call returns at once: it runs no command, looks
-- at no file and changes nothing.
pub git_dir_cached :
    (env : Env) (g : GitOps) (t : Trace)
    → let s = final (git_dir env (g, t)) in (d : FilePath) × (git_dir env s ≡ returned d s)
git_dir_cached env g t =
    let (d, e) = git_dir-Cached env g t in
    let s = final (git_dir env (g, t)) in (d, known env s.0 s.1 d e)
