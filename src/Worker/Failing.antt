-- ===== src/Worker/Failing.antt =====
-- src/obsidian_git_sync/worker.py: whether the newest attempt of a cycle failed, by the history.
use obsidian_git_sync_mcp.Common.{
  ◌≡◌, refl, Bool, true, false, Option, none, some, List, [], ◌∷◌, arith, Run, returned, raised,
  final, Bool-cases, inl, inr,
}
use obsidian_git_sync_mcp.Common.Rules.{Keeps, bind}
use obsidian_git_sync_mcp.Text.{Text, codes}
use obsidian_git_sync_mcp.FilePath.{FilePath, child_text}
use obsidian_git_sync_mcp.Host
use obsidian_git_sync_mcp.Host.{Env, Io, Trace, Code, timeout}
use obsidian_git_sync_mcp.GitOps
use obsidian_git_sync_mcp.GitOps.{GitOps, argv}
use obsidian_git_sync_mcp.History.{
  Command, commands, verb, Verb, staging, inspecting, committing, other, Ending, succeeded,
  exited_with, lost, ending,
}
use obsidian_git_sync_mcp.History.Verbs.{verb-rev_parse}
use obsidian_git_sync_mcp.History.Silent.{Has, describe_present-Keeps}
use obsidian_git_sync_mcp.History.Laws.{commands-run}
use obsidian_git_sync_mcp.Locks.{describe_present}
use obsidian_git_sync_mcp.Worker.{
  Worker, State, lift, log, git_dir, lock_note, report_failure, code_eq,
}

-- Staging and committing fail unless git exits with 0; the question whether something is staged fails
-- only if git does not exit, since its exit code is the answer. No other command counts.
unfoldable pub failed_after : Verb → Ending → Bool → Bool
failed_after staging succeeded before = false
failed_after staging e before = true
failed_after committing succeeded before = false
failed_after committing e before = true
failed_after inspecting succeeded before = before
failed_after inspecting (exited_with (Host.rc code)) before = before
failed_after inspecting (exited_with timeout) before = true
failed_after inspecting lost before = true
failed_after v e before = before

-- Did the newest attempt fail?
unfoldable pub has_failed : List Command → Bool
unfolding failed_after verb ending
has_failed [] = false
has_failed (c ∷ cs) = failed_after (verb c.line) (ending c.reply) (has_failed cs)

abbrev pub Failing : State → Type 0
Failing s = has_failed (commands s.trace) ≡ true

has_failed-other :
    (c : Command) (cs : List Command) → verb c.line ≡ other → has_failed (c ∷ cs) ≡ has_failed cs
unfolding has_failed failed_after
has_failed-other c cs e = rw e refl

pub lift_silent :
    {A : Type 0} (io : Io A) → ((h : List Command) → Keeps (Has h) io) → Keeps Failing (lift io)
lift_silent io k s i = go (io s.trace) (k (commands s.trace) s.trace refl)
  where
    go :
        {A : Type 0} (r : Run Trace A)
        → Has (commands s.trace) (final r)
        → Failing (
            final {A = A} (elim r [
              | returned a t ↦ returned a (record s { trace = t })
              | raised e t ↦ raised e (record s { trace = t })
            ]))
    go (returned a t) e = rw e i
    go (raised x t) e = rw e i

git_dir_result :
    (w : Worker) (r : Run (GitOps × Trace) FilePath)
    → has_failed (commands (final r).1) ≡ true
    → Failing (
        final {A = FilePath} (elim r [
          | returned d (g, t) ↦ returned d (record { worker = record w { git = g }; trace = t })
          | raised e (g, t) ↦ raised e (record { worker = record w { git = g }; trace = t })
        ]))
git_dir_result w (returned d (g, t)) h = h
git_dir_result w (raised x (g, t)) h = h

abbrev rev_parse : Env → GitOps → Trace → Command
rev_parse env g t =
    let line = argv g (codes "rev-parse" ∷ codes "--absolute-git-dir" ∷ []) in
    record { line = line; reply = env.git t line }

module _ (env : Env) where
  has_failed-git_dir :
      (g : GitOps) (t : Trace)
      → has_failed (commands (final (GitOps.git_dir env (g, t))).1) ≡ has_failed (commands t)
  unfolding GitOps.git_dir commands
  has_failed-git_dir g t =
      let dot_git = child_text g.vault (codes ".git") in
      let asked = record g { git_dir_cache = some dot_git } in
      let t' = Host.looked dot_git ∷ t in
      ground (
        arith,
        commands-run env asked (codes "rev-parse" ∷ codes "--absolute-git-dir" ∷ []) t',
        has_failed-other (rev_parse env asked t') (commands t) (verb-rev_parse asked),
      )

  git_dir-Failing : Keeps Failing (git_dir env)
  unfolding git_dir
  git_dir-Failing s i =
      git_dir_result s.worker (GitOps.git_dir env (s.worker.git, s.trace)) (rw has_failed-git_dir i)

  lock_note-Failing : Keeps Failing (lock_note env)
  unfolding lock_note
  lock_note-Failing = bind Failing (git_dir env) _ git_dir-Failing λ gitdir.
      bind Failing (lift (describe_present env gitdir)) _
        (lift_silent (describe_present env gitdir) (λ h. describe_present-Keeps env h gitdir))
        λ present s i. i

  pub report_failure-Failing :
      (prior : Option Code) (what : Text) (code : Code)
      → Keeps Failing (report_failure env prior what code)
  unfolding report_failure commands
  report_failure-Failing none what code s i =
      bind Failing (lock_note env) (λ note. log (Host.now_degraded what code note))
        lock_note-Failing (λ note t j. j) s i
  report_failure-Failing (some prior) what code s i = elim (Bool-cases (code_eq code prior)) [
    | inl e ↦ rw e i
    | inr e ↦ rw e (
        bind Failing (lock_note env) (λ note. log (Host.degraded_otherwise what code prior note))
          lock_note-Failing (λ note t j. j) s i)
  ]
