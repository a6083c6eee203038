-- ===== src/Loop/Flushed.antt =====
-- src/obsidian_git_sync/worker.py: a remote that takes what is pushed has all commits at the end.
use obsidian_git_sync_mcp.Common.{◌≡◌, true, false, List, Run, returned, raised, final}
use obsidian_git_sync_mcp.Text.{nonempty}
use obsidian_git_sync_mcp.Host.{Env}
use obsidian_git_sync_mcp.Config.{Settings}
use obsidian_git_sync_mcp.History.{commands, has_pending}
use obsidian_git_sync_mcp.Worker.{State}
use obsidian_git_sync_mcp.Worker.Tracking.{IsTracked}
use obsidian_git_sync_mcp.Push.{maybe_push}
use obsidian_git_sync_mcp.Loop.{Poll, run, lifetime}
use obsidian_git_sync_mcp.Loop.Safety.{run-IsTracked}
use obsidian_git_sync_mcp.Loop.Frozen.{run-Fixed}
use obsidian_git_sync_mcp.Push.Taken.{TakesPushes, Pushed, maybe_push-Pushed}

module _ (env : Env) (healthy : TakesPushes env) where
  -- Where git exits from each command, with whatever code, and takes each push: if a remote and a
  -- branch are configured, and each commit that no successful push has followed is marked as
  -- unpushed, then behind the loop and the final flush a successful push has followed each commit,
  -- whatever the queue and the disk do.
  pub lifetime-Pushed :
      (c : Settings) (ps : List Poll) (s : State)
      → nonempty s.worker.remote ≡ true
      → nonempty s.worker.branch ≡ true
      → IsTracked s
      → has_pending (commands (final (lifetime env c ps s)).trace) ≡ false
  unfolding lifetime
  lifetime-Pushed c ps s remote branch tracked =
      flushed (run env c ps s)
        (run-Fixed (λ w. (nonempty w.remote ≡ true) × (nonempty w.branch ≡ true)) (λ w g u l d p. p)
          env c ps s (remote, branch))
        (run-IsTracked env c ps s tracked)
    where
      flushed :
          (r : Run State (Unit {0}))
          → (nonempty (final r).worker.remote ≡ true) × (nonempty (final r).worker.branch ≡ true)
          → IsTracked (final r)
          → Pushed env healthy (
              final {S = State} {A = Unit {0}}
                (elim (elim r as (λ x. Run State (Unit {0})) [
                  | returned a t ↦ returned a t
                  | raised x t ↦ returned tt t
                ]) [ returned a t ↦ maybe_push env t | raised x t ↦ raised x t ]))
      flushed (returned a t) (m, b) k = maybe_push-Pushed env healthy t m b k
      flushed (raised x t) (m, b) k = maybe_push-Pushed env healthy t m b k
