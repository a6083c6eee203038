-- ===== src/System/Tracking.antt =====
-- src/obsidian_git_sync/worker.py: the mark of unpushed commits, in the system of the threads.
use obsidian_git_sync_mcp.Common.{◌≡◌, sym, subst, some, final}
use obsidian_git_sync_mcp.Host.{Env}
use obsidian_git_sync_mcp.Config.{Settings}
use obsidian_git_sync_mcp.Worker.{Worker, State}
use obsidian_git_sync_mcp.Worker.Tracking.{IsTracked}
use obsidian_git_sync_mcp.Loop.Safety.{run-IsTracked}
use obsidian_git_sync_mcp.Extension.{Process}
use obsidian_git_sync_mcp.System.{System, begin, Reach}
use obsidian_git_sync_mcp.System.Sequential.{Reach-Simulates}

module _ (env : Env) (c : Settings) where
  -- However the producers, the timer, the worker's thread and shutdown interleave, with the flush
  -- behind the thread's end or, where the join runs out of time, beside a thread that waits, but
  -- never overlapping a round: if at the start of the worker's thread each commit that no
  -- successful push has followed is marked as unpushed, then so it is with the worker and the
  -- history that the process then has.
  pub Reach-IsTracked :
      (p : Process) (w : Worker)
      → p.ext.worker ≡ some w
      → IsTracked (record { worker = w; trace = p.trace })
      → {s : System} → Reach env c (begin p) s
      → (v : Worker) × ((s.process.ext.worker ≡ some v)
          × IsTracked (record { worker = v; trace = s.process.trace }))
  Reach-IsTracked p w e h {s} r =
      let (ps, (st, (runs, (a, ((k, t), f))))) = Reach-Simulates env c p w e r in
      let start : State = record { worker = w; trace = p.trace } in
      let tracked = subst (λ x. IsTracked (final x)) runs (run-IsTracked env c ps start h) in
      (
        st.worker,
        (k, subst (λ t. IsTracked (record { worker = st.worker; trace = t })) (sym t) tracked),
      )
