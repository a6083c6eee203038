-- ===== src/Worker/Spending.antt =====
-- src/obsidian_git_sync/worker.py: how many git commands the work on one event runs.
use obsidian_git_sync_mcp.Common.{
  ℕ, ◌+◌, ◌≤◌, refl, ap, Option, none, some, List, [], ◌∷◌, arith, length, Run, returned, raised,
  final,
}
use obsidian_git_sync_mcp.Common.Costs
use obsidian_git_sync_mcp.Common.Costs.{Costs}
use obsidian_git_sync_mcp.Common.Rules.{Keeps}
use obsidian_git_sync_mcp.Text.{Text, codes}
use obsidian_git_sync_mcp.FilePath.{FilePath, child_text}
use obsidian_git_sync_mcp.Host
use obsidian_git_sync_mcp.Host.{Env, Io, Trace, Code, timeout, GitResult, is_ok}
use obsidian_git_sync_mcp.GitOps
use obsidian_git_sync_mcp.GitOps.{GitOps, identity_args}
use obsidian_git_sync_mcp.Locks.{describe_present}
use obsidian_git_sync_mcp.History.{Command, commands}
use obsidian_git_sync_mcp.History.Laws.{commands-run}
use obsidian_git_sync_mcp.History.Silent.{Has, describe_present-Keeps}
use obsidian_git_sync_mcp.Worker.{
  Worker, State, lift, log, modify, git_dir, lock_note, report_failure, record_failure,
  record_clean, code_eq,
}

-- The number of commands that were run.
abbrev pub asked : Trace → ℕ
asked t = length (commands t)

-- The question for the git directory that is still to be asked.
abbrev pub to_ask : Option FilePath → ℕ
to_ask none = 1
to_ask (some d) = 0

-- The commands that were run, and that question.
abbrev pub spent : State → ℕ
spent s = asked s.trace + to_ask s.worker.git.git_dir_cache

module _ (env : Env) where
  pub run-Costs : (g : GitOps) (args : List Text) → Costs asked 1 (GitOps.run env g args)
  run-Costs g args t = omega (arith, ap length (commands-run env g args t))

silent-Costs : {A : Type 0} (io : Io A) → ((h : List Command) → Keeps (Has h) io) → Costs asked 0 io
silent-Costs io k t = omega (arith, ap length (k (commands t) t refl))

lift_result :
    {A : Type 0} (w : Worker) (n : ℕ) (r : Run Trace A)
    → asked (final r) ≤ n
    → spent (
        final {A = A} (elim r [
          | returned a t ↦ returned a (record { worker = w; trace = t })
          | raised e t ↦ raised e (record { worker = w; trace = t })
        ]))
      ≤ n + to_ask w.git.git_dir_cache
lift_result w n (returned a t) h = omega (arith, h)
lift_result w n (raised x t) h = omega (arith, h)

pub lift-Costs : {A : Type 0} (n : ℕ) (io : Io A) → Costs asked n io → Costs spent n (lift io)
lift-Costs n io h s =
    omega (arith, lift_result s.worker (n + asked s.trace) (io s.trace) (h s.trace))

pub lift_silent-Costs :
    {A : Type 0} (io : Io A) → ((h : List Command) → Keeps (Has h) io) → Costs spent 0 (lift io)
lift_silent-Costs io k = lift-Costs 0 io (silent-Costs io k)

module _ (env : Env) where
  git_dir_result :
      (w : Worker) (n : ℕ) (r : Run (GitOps × Trace) FilePath)
      → asked (final r).1 + to_ask (final r).0.git_dir_cache ≤ n
      → spent (
          final {A = FilePath} (elim r [
            | returned d (g, t) ↦ returned d (record { worker = record w { git = g }; trace = t })
            | raised e (g, t) ↦ raised e (record { worker = record w { git = g }; trace = t })
          ]))
        ≤ n
  git_dir_result w n (returned d (g, t)) h = h
  git_dir_result w n (raised e (g, t)) h = h

  cached :
      (g : GitOps) (t : Trace)
      → (let r = GitOps.git_dir env (g, t) in asked (final r).1 + to_ask (final r).0.git_dir_cache)
        ≤ asked t + to_ask g.git_dir_cache
  unfolding GitOps.git_dir commands
  cached g t =
      let dot_git = child_text g.vault (codes ".git") in
      let g' = record g { git_dir_cache = some dot_git } in
      ground (
        arith,
        run-Costs env g' (codes "rev-parse" ∷ codes "--absolute-git-dir" ∷ [])
            (Host.looked dot_git ∷ t),
      )

  git_dir-Costs : Costs spent 0 (git_dir env)
  unfolding git_dir
  git_dir-Costs s = omega (
    arith,
    git_dir_result s.worker (spent s) (GitOps.git_dir env (s.worker.git, s.trace))
        (cached s.worker.git s.trace),
  )

  pub log-Costs : (l : Host.Log) → Costs spent 0 (log l)
  unfolding commands
  log-Costs l s = omega arith

  lock_note-Costs : Costs spent 0 (lock_note env)
  unfolding lock_note
  lock_note-Costs = Costs.bind spent 0 0 (git_dir env) _ git_dir-Costs λ gitdir.
      Costs.bind spent 0 0 (lift (describe_present env gitdir)) _
        (lift_silent-Costs (describe_present env gitdir) (λ h. describe_present-Keeps env h gitdir))
        λ present s. omega arith

  report_failure-Costs :
      (prior : Option Code) (what : Text) (code : Code)
      → Costs spent 0 (report_failure env prior what code)
  unfolding report_failure
  report_failure-Costs none what code =
      Costs.bind spent 0 0 (lock_note env) _ lock_note-Costs
        λ note. log-Costs (Host.now_degraded what code note)
  report_failure-Costs (some prior) what code =
      Costs.branch spent 0 (code_eq code prior) _ _ (log-Costs (Host.still_degraded what code)) (
        Costs.bind spent 0 0 (lock_note env) _ lock_note-Costs
          λ note. log-Costs (Host.degraded_otherwise what code prior note))

  pub record_failure-Costs :
      (what : Text) (code : Code) → Costs spent 0 (record_failure env what code)
  unfolding record_failure
  record_failure-Costs what code s =
      Costs.seq spent 0 0 (report_failure env s.worker.degraded_rc what code)
        (modify (λ w. record w { degraded_rc = some code }))
        (report_failure-Costs s.worker.degraded_rc what code) (λ t. omega arith) s

  pub record_clean-Costs : Costs spent 0 (record_clean env)
  unfolding record_clean commands
  record_clean-Costs s = ground arith
