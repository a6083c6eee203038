-- ===== src/Worker/Tracking.antt =====
-- src/obsidian_git_sync/worker.py: the mark of unpushed commits, through the reports of a cycle.
use obsidian_git_sync_mcp.Common.{
  ◌≡◌, ◌≢◌, refl, true, Option, none, some, List, [], ◌∷◌, arith, Run, returned, raised, final,
  Bool-cases, inl, inr,
}
use obsidian_git_sync_mcp.Common.Rules.{Keeps, bind, seq}
use obsidian_git_sync_mcp.Text.{Text, codes}
use obsidian_git_sync_mcp.FilePath.{FilePath, child_text}
use obsidian_git_sync_mcp.Host
use obsidian_git_sync_mcp.Host.{Env, Io, Trace, Code, timeout, is_ok}
use obsidian_git_sync_mcp.GitOps
use obsidian_git_sync_mcp.GitOps.{GitOps, argv}
use obsidian_git_sync_mcp.History.{Command, commands, verb, committing, has_pending}
use obsidian_git_sync_mcp.History.Verbs.{verb-rev_parse}
use obsidian_git_sync_mcp.History.Silent.{Has, describe_present-Keeps}
use obsidian_git_sync_mcp.History.Laws.{commands-run, has_pending-cons, has_pending-other}
use obsidian_git_sync_mcp.Locks.{describe_present}
use obsidian_git_sync_mcp.Worker.{
  Worker, State, lift, log, git_dir, lock_note, report_failure, record_failure, record_clean,
  code_eq,
}

-- A commit that stands unpushed is marked as such.
abbrev pub IsTracked : State → Type 0
IsTracked s = has_pending (commands s.trace) ≡ true → s.worker.unpushed ≡ true

lift_result :
    {A : Type 0} (w : Worker) (r : Run Trace A) (h : List Command)
    → Has h (final r)
    → (has_pending h ≡ true → w.unpushed ≡ true)
    → IsTracked (
        final {A = A} (elim r [
          | returned a t ↦ returned a (record { worker = w; trace = t })
          | raised e t ↦ raised e (record { worker = w; trace = t })
        ]))
lift_result w (returned a t) h e k = rw e k
lift_result w (raised x t) h e k = rw e k

-- Code that runs no git command.
pub lift_silent :
    {A : Type 0} (io : Io A) → ((h : List Command) → Keeps (Has h) io) → Keeps IsTracked (lift io)
lift_silent io k s i = lift_result s.worker (io s.trace) (commands s.trace) (k _ s.trace refl) i

-- Code after which no more is pending than before.
pub lift-IsTracked :
    {A : Type 0} (io : Io A)
    → ((t : Trace) → has_pending (commands (final (io t))) ≡ true → has_pending (commands t) ≡ true)
    → Keeps IsTracked (lift io)
lift-IsTracked io k s i = lift_result s.worker (io s.trace) _ refl (λ p. i (k s.trace p))

-- A command that is no commit.
pub lift-run :
    (env : Env) (g : GitOps) (args : List Text)
    → verb (argv g args) ≢ committing
    → Keeps IsTracked (lift (GitOps.run env g args))
lift-run env g args h s i =
    lift_result s.worker (GitOps.run env g args s.trace) _ (commands-run env g args s.trace)
      (λ p. i (has_pending-cons _ (commands s.trace) h p))

-- An exception's or a result's way through the record of the worker.
git_dir_result :
    (w : Worker) (r : Run (GitOps × Trace) FilePath) (h : List Command)
    → commands (final r).1 ≡ h
    → (has_pending h ≡ true → w.unpushed ≡ true)
    → IsTracked (
        final {A = FilePath} (elim r [
          | returned d (g, t) ↦ returned d (record { worker = record w { git = g }; trace = t })
          | raised e (g, t) ↦ raised e (record { worker = record w { git = g }; trace = t })
        ]))
git_dir_result w (returned d (g, t)) h e k = rw e k
git_dir_result w (raised x (g, t)) h e k = rw e k

-- The question for the git directory, in the history.
abbrev rev_parse : Env → GitOps → Trace → Command
rev_parse env g t =
    let line = argv g (codes "rev-parse" ∷ codes "--absolute-git-dir" ∷ []) in
    record { line = line; reply = env.git t line }

module _ (env : Env) where
  git_dir-commands :
      (g : GitOps) (t : Trace)
      → has_pending (commands (final (GitOps.git_dir env (g, t))).1) ≡ has_pending (commands t)
  unfolding GitOps.git_dir commands
  git_dir-commands g t =
      let dot_git = child_text g.vault (codes ".git") in
      let asked = record g { git_dir_cache = some dot_git } in
      let t' = Host.looked dot_git ∷ t in
      ground (
        arith,
        commands-run env asked (codes "rev-parse" ∷ codes "--absolute-git-dir" ∷ []) t',
        has_pending-other (rev_parse env asked t') (commands t) (verb-rev_parse asked),
      )

  git_dir-IsTracked : Keeps IsTracked (git_dir env)
  unfolding git_dir
  git_dir-IsTracked s i =
      git_dir_result s.worker (GitOps.git_dir env (s.worker.git, s.trace)) _ refl
        (rw git_dir-commands i)

  lock_note-IsTracked : Keeps IsTracked (lock_note env)
  unfolding lock_note
  lock_note-IsTracked = bind IsTracked (git_dir env) _ git_dir-IsTracked λ gitdir.
      bind IsTracked (lift (describe_present env gitdir)) _
        (lift_silent _ (λ h. describe_present-Keeps env h gitdir)) λ present s i. i

  report_failure-IsTracked :
      (prior : Option Code) (what : Text) (code : Code)
      → Keeps IsTracked (report_failure env prior what code)
  unfolding report_failure commands
  report_failure-IsTracked none what code s i =
      bind IsTracked (lock_note env) (λ note. log (Host.now_degraded what code note))
        lock_note-IsTracked (λ note t j. j) s i
  report_failure-IsTracked (some prior) what code s i = elim (Bool-cases (code_eq code prior)) [
    | inl e ↦ rw e i
    | inr e ↦ rw e (
        bind IsTracked (lock_note env) (λ note. log (Host.degraded_otherwise what code prior note))
          lock_note-IsTracked (λ note t j. j) s i)
  ]

  pub record_failure-IsTracked :
      (what : Text) (code : Code) → Keeps IsTracked (record_failure env what code)
  unfolding record_failure
  record_failure-IsTracked what code s =
      seq IsTracked (report_failure env s.worker.degraded_rc what code) _
        (report_failure-IsTracked _ what code) (λ t i. i) s

  pub record_clean-IsTracked : Keeps IsTracked (record_clean env)
  unfolding record_clean commands
  record_clean-IsTracked s i = ground arith
