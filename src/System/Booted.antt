-- ===== src/System/Booted.antt =====
-- src/obsidian_git_sync/extension.py and worker.py: the threads behind the server's start.
use obsidian_git_sync_mcp.History.Verbs.{other_ne}
use obsidian_git_sync_mcp.Common.{
  ◌≡◌, sym, subst, ◌∙◌, true, false, some, List, ◌∷◌, final, Returns, Run, returned, raised, ◌>>◌,
  false_ne,
}
use obsidian_git_sync_mcp.Common.Ends.{Ends}
use obsidian_git_sync_mcp.Common.Rules.{seq}
use obsidian_git_sync_mcp.Common.Steps.{seq-returned}
use obsidian_git_sync_mcp.FilePath.{FilePath}
use obsidian_git_sync_mcp.Host.{Env, Trace}
use obsidian_git_sync_mcp.Config.{Settings, is_enabled, validate_gitsync}
use obsidian_git_sync_mcp.History.{Command, commands, verb, other, has_pending, CommitsStaged}
use obsidian_git_sync_mcp.History.Laws.{has_pending-other}
use obsidian_git_sync_mcp.Worker.{Worker, State}
use obsidian_git_sync_mcp.Worker.Tracking.{IsTracked}
use obsidian_git_sync_mcp.Loop.Commits.{run-Staged}
use obsidian_git_sync_mcp.Extension.{Process, P, before_indexes_start, after_indexes_start}
use obsidian_git_sync_mcp.Extension.Attached.{fresh, before_indexes_start-Returns}
use obsidian_git_sync_mcp.Extension.Asks.{before_indexes_start-Asked, after_indexes_start-Asked}
use obsidian_git_sync_mcp.Extension.Startup.{IsStarted, after_indexes_start-IsStarted}
use obsidian_git_sync_mcp.System.{System, begin, Reach}
use obsidian_git_sync_mcp.System.Tracking.{Reach-IsTracked}
use obsidian_git_sync_mcp.System.Sequential.{Reach-Simulates}

-- No commit is pending, and none was made without changes.
abbrev IsClean : List Command → Type 0
IsClean cs = (has_pending cs ≡ false) × CommitsStaged cs

asked-IsClean :
    (x : Command) (cs : List Command) → verb x.line ≡ other → IsClean cs → IsClean (x ∷ cs)
asked-IsClean x cs v (none, staged) =
    (has_pending-other x cs v ∙ none, ((λ w. absurd (other_ne (sym v ∙ w))), staged))

module _ (env : Env) (c : Settings) (vault : FilePath) where
  -- The server's calls up to the start of the threads.
  abbrev pub boot : P (Unit {0})
  boot = before_indexes_start env c vault >> after_indexes_start env c vault

  started :
      (t : Trace)
      → is_enabled c ≡ true
      → Returns (validate_gitsync env c vault t)
      → IsStarted env c vault (final (boot (fresh c t)))
  started t on valid =
      let (u, (e, f)) = before_indexes_start-Returns env c vault t on valid in
      subst (λ r. IsStarted env c vault (final r))
        (sym (seq-returned (before_indexes_start env c vault) (after_indexes_start env c vault) e))
        (ended (after_indexes_start env c vault u)
          (after_indexes_start-IsStarted env c vault t u on valid f))
    where
      ended :
          (r : Run Process (Unit {0}))
          → Ends (λ a. IsStarted env c vault) (λ s. ⊥) r
          → IsStarted env c vault (final r)
      ended (returned a u) h = h
      ended (raised x u) h = absurd h

  clean : (t : Trace) → IsClean (commands t) → IsClean (commands (final (boot (fresh c t))).trace)
  clean t =
      seq (λ (s : Process). IsClean (commands s.trace)) (before_indexes_start env c vault)
        (after_indexes_start env c vault)
        (before_indexes_start-Asked IsClean asked-IsClean env c vault)
        (after_indexes_start-Asked IsClean asked-IsClean env c vault) (fresh c t)

  -- From the server's start on, however the threads interleave, with the flush behind the thread's
  -- end or, where the join runs out of time, beside a thread that waits, but never overlapping a
  -- round: where the check of an enabled extension's settings returns, and in the trace before it
  -- no commit waits for a push and each directly followed a `git diff` that found staged changes,
  -- there is a worker, each commit that no successful push has followed is marked as unpushed, and
  -- each commit directly followed such a diff.
  pub Reach-Booted :
      (t : Trace)
      → is_enabled c ≡ true
      → Returns (validate_gitsync env c vault t)
      → has_pending (commands t) ≡ false
      → CommitsStaged (commands t)
      → {s : System} → Reach env c (begin (final (boot (fresh c t)))) s
      → (v : Worker) × ((s.process.ext.worker ≡ some v)
          × (IsTracked (record { worker = v; trace = s.process.trace })
              × CommitsStaged (commands s.process.trace)))
  Reach-Booted t on valid none staged {s} r =
      let p = final (boot (fresh c t)) in
      let ((w, e), running) = started t on valid in
      let (free, before) = clean t (none, staged) in
      let (v, (f, tracked)) =
        Reach-IsTracked env c p w e (λ pending. absurd (false_ne (sym free ∙ pending))) r in
      let (ps, (st, (runs, (a, ((g, same), h))))) = Reach-Simulates env c p w e r in
      let start : State = record { worker = w; trace = p.trace } in
      let after =
        subst (λ (x : Run State (Unit {0})). CommitsStaged (commands (final x).trace)) runs
          (run-Staged env c ps start before) in
      (v, (f, (tracked, subst (λ x. CommitsStaged (commands x)) (sym same) after)))
