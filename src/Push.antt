-- ===== src/Push.antt =====
-- src/obsidian_git_sync/worker.py: the push policy.
pub mod Tracking
pub mod Settled
pub mod Aborts
pub mod Timeouts
pub mod Laws
pub mod Bounds
pub mod Commitless
pub mod Grammar
pub mod Sequence
pub mod Attempts
pub mod Taken
use obsidian_git_sync_mcp.Common.{
  ℕ, Bool, true, false, not, ◌&&◌, ◌||◌, Option, none, some, List, [], ◌∷◌, if◌then◌else◌, Exn,
  timeout_expired, returned, raised, throw, catch, pure, ◌>>=◌, ◌>>◌,
}
use obsidian_git_sync_mcp.Text.{Text, nonempty}
use obsidian_git_sync_mcp.Numeral.{Float, sub_ℕ, ge_float}
use obsidian_git_sync_mcp.FilePath.{FilePath}
use obsidian_git_sync_mcp.Host
use obsidian_git_sync_mcp.Host.{Env, Io, is_ok, read_clock}
use obsidian_git_sync_mcp.GitOps
use obsidian_git_sync_mcp.GitOps.{GitOps, default_timeout}
use obsidian_git_sync_mcp.Heartbeat.{ping}
use obsidian_git_sync_mcp.CredentialHelper.{helper_name}
use obsidian_git_sync_mcp.Events.{SyncEvent}
use obsidian_git_sync_mcp.Config
use obsidian_git_sync_mcp.Config.{Settings}
use obsidian_git_sync_mcp.Worker.{Worker, State, M, lift, log, modify, handle_event}

module _ (env : Env) where
  -- `_now`
  unfoldable pub now : M ℕ
  now s = returned (env.monotonic s.trace) (record s { trace = read_clock ∷ s.trace })

  unfoldable pub push_overdue : M Bool
  unfolding now
  push_overdue = do
    at ← now
    λ s. returned (ge_float (sub_ℕ at s.worker.last_push) s.worker.push_max_interval) s

  unfoldable pub resolve_branch : M (Option Text)
  resolve_branch s =
      if nonempty s.worker.branch
      then returned (some s.worker.branch) s
      else lift (GitOps.current_branch env s.worker.git) s

  -- Fetch; if that succeeds rebase; if that fails abort.
  unfoldable pub integrate : Text → M (Unit {0})
  integrate branch s =
      (do
        fetched ← lift (GitOps.fetch env s.worker.git s.worker.remote)
        if is_ok fetched
            then (do
              rebased ← lift (GitOps.rebase_theirs env s.worker.git s.worker.remote branch)
              if not (is_ok rebased)
                  then (do
                    lift (GitOps.rebase_abort env s.worker.git)
                    log (Host.rebase_failed s.worker.remote branch))
                  else pure tt)
            else pure tt)
        s

  unfoldable pub send : Text → M (Unit {0})
  unfolding now
  send branch s =
      (do
        pushed ← lift (GitOps.push env s.worker.git s.worker.remote branch)
        if is_ok pushed
            then (do
              modify (λ w. record w { unpushed = false })
              at ← now
              modify (λ w. record w { last_push = at })
              if nonempty s.worker.heartbeat_url
                  then lift (ping env s.worker.heartbeat_url)
                  else pure tt)
            else log (Host.push_failed pushed.rc))
        s

  unfoldable pub push_once : M (Unit {0})
  unfolding resolve_branch integrate send
  push_once = do
    branch ← resolve_branch
    elim branch [ none ↦ log Host.no_branch | some b ↦ (do integrate b; send b) ]

  unfoldable pub maybe_push : M (Unit {0})
  unfolding push_once
  maybe_push s =
      if not s.worker.unpushed || not (nonempty s.worker.remote)
      then returned tt s
      else catch push_once
          (λ e. elim e [ timeout_expired ↦ pure tt | other ↦ log Host.push_cycle_failed ]) s
