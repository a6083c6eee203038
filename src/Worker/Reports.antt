-- ===== src/Worker/Reports.antt =====
-- src/obsidian_git_sync/worker.py: what the report of a failure keeps of the history: all that the
-- question for the git directory keeps.
use obsidian_git_sync_mcp.Common.{
  Option, none, some, List, [], ◌∷◌, arith, Run, returned, raised, final, pure, ◌>>◌,
}
use obsidian_git_sync_mcp.Common.Rules.{Keeps, bind, seq, pick}
use obsidian_git_sync_mcp.Text.{Text, codes}
use obsidian_git_sync_mcp.FilePath.{FilePath, child_text}
use obsidian_git_sync_mcp.Host
use obsidian_git_sync_mcp.Host.{Env, Trace, Code}
use obsidian_git_sync_mcp.GitOps
use obsidian_git_sync_mcp.GitOps.{GitOps}
use obsidian_git_sync_mcp.Locks.{describe_present}
use obsidian_git_sync_mcp.History.{Command, commands}
use obsidian_git_sync_mcp.History.Silent.{describe_present-Keeps}
use obsidian_git_sync_mcp.Worker.{
  Worker, State, lift, log, modify, git_dir, lock_note, report_failure, record_failure,
  record_clean, code_eq,
}
use obsidian_git_sync_mcp.Worker.Lifted.{lift_silent-Keeps}

abbrev pub dir_args : List Text
dir_args = codes "rev-parse" ∷ codes "--absolute-git-dir" ∷ []

module _ (env : Env) (P : List Command → Type 0)
    (asks : (g : GitOps) (t : Trace)
      → P (commands t)
      → P (commands (final (GitOps.run env g dir_args t)))) where
  abbrev pub Kept : State → Type 0
  Kept s = P (commands s.trace)

  found_dir :
      (g : GitOps) (t : Trace) → P (commands t) → P (commands (final (GitOps.git_dir env (g, t))).1)
  unfolding GitOps.git_dir commands
  found_dir g t p =
      let dot_git = child_text g.vault (codes ".git") in
      let g' = record g { git_dir_cache = some dot_git } in
      ground (arith, p, asks g' (Host.looked dot_git ∷ t) p)

  git_dir_result :
      (w : Worker) (r : Run (GitOps × Trace) FilePath)
      → P (commands (final r).1)
      → Kept (
          final {S = State} {A = FilePath} (elim r [
            | returned d (g, t) ↦ returned d (record { worker = record w { git = g }; trace = t })
            | raised e (g, t) ↦ raised e (record { worker = record w { git = g }; trace = t })
          ]))
  git_dir_result w (returned d (g, t)) p = p
  git_dir_result w (raised e (g, t)) p = p

  pub git_dir-Kept : Keeps Kept (git_dir env)
  unfolding git_dir
  git_dir-Kept s p =
      git_dir_result s.worker (GitOps.git_dir env (s.worker.git, s.trace))
        (found_dir s.worker.git s.trace p)

  pub log-Kept : (l : Host.Log) → Keeps Kept (log l)
  unfolding commands
  log-Kept l s p = p

  lock_note-Kept : Keeps Kept (lock_note env)
  unfolding lock_note
  lock_note-Kept = bind Kept (git_dir env) _ git_dir-Kept λ gitdir.
      bind Kept (lift (describe_present env gitdir)) _
        (lift_silent-Keeps P (describe_present env gitdir)
          (λ h. describe_present-Keeps env h gitdir))
        λ present s p. p

  report_failure-Kept :
      (prior : Option Code) (what : Text) (code : Code)
      → Keeps Kept (report_failure env prior what code)
  unfolding report_failure
  report_failure-Kept none what code =
      bind Kept (lock_note env) _ lock_note-Kept λ note. log-Kept (Host.now_degraded what code note)
  report_failure-Kept (some prior) what code =
      pick Kept (code_eq code prior) _ _ (log-Kept (Host.still_degraded what code)) (
        bind Kept (lock_note env) _ lock_note-Kept
          λ note. log-Kept (Host.degraded_otherwise what code prior note))

  pub record_failure-Kept : (what : Text) (code : Code) → Keeps Kept (record_failure env what code)
  unfolding record_failure
  record_failure-Kept what code s =
      seq Kept (report_failure env s.worker.degraded_rc what code)
        (modify (λ w. record w { degraded_rc = some code }))
        (report_failure-Kept s.worker.degraded_rc what code) (λ t p. p) s

  pub failed_then :
      {A : Type 0} (what : Text) (code : Code) (a : A)
      → Keeps Kept (do record_failure env what code; pure a)
  failed_then what code a =
      seq Kept (record_failure env what code) (pure a) (record_failure-Kept what code) (λ s p. p)

  pub record_clean-Kept : Keeps Kept (record_clean env)
  unfolding record_clean commands
  record_clean-Kept s p = ground (arith, p)
