-- ===== src/Loop/Bounds.antt =====
-- src/obsidian_git_sync/worker.py: the worker's whole life, in git commands.
use obsidian_git_sync_mcp.Common.{
  ℕ, ◌+◌, ◌≤◌, Option, none, some, List, [], ◌∷◌, arith, length, if◌then◌else◌, catch, pure, final,
}
use obsidian_git_sync_mcp.Common.Costs
use obsidian_git_sync_mcp.Common.Costs.{Costs}
use obsidian_git_sync_mcp.FilePath.{FilePath}
use obsidian_git_sync_mcp.Host.{Env}
use obsidian_git_sync_mcp.Config.{Settings}
use obsidian_git_sync_mcp.History.{commands}
use obsidian_git_sync_mcp.Worker.{State, handle_event}
use obsidian_git_sync_mcp.Worker.Spending.{to_ask, spent}
use obsidian_git_sync_mcp.Worker.Bounds.{handle_event-Costs}
use obsidian_git_sync_mcp.Push.{push_overdue, maybe_push}
use obsidian_git_sync_mcp.Push.Bounds.{push_overdue-Costs, maybe_push-Costs}
use obsidian_git_sync_mcp.Loop.{Poll, arrived, quiet, broke, iteration, run, lifetime}

to_ask_le : (cache : Option FilePath) → to_ask cache ≤ 1
to_ask_le none = omega arith
to_ask_le (some d) = omega arith

-- Four commands stage and commit an event's changes, five are a push cycle.
abbrev cost : Poll → ℕ
cost (arrived event) = 9
cost quiet = 5
cost (broke e) = 0

-- What the rounds cost at most.
abbrev pub budget : List Poll → ℕ
budget [] = 0
budget (p ∷ ps) = cost p + budget ps

module _ (env : Env) (c : Settings) where
  iteration-Costs : (p : Poll) → Costs spent (cost p) (iteration env c p)
  unfolding iteration
  iteration-Costs (arrived event) s =
      Costs.seq spent 4 5 (handle_event env c event) _ (handle_event-Costs env c event)
        (Costs.bind spent 0 5 (push_overdue env)
          (λ overdue. if overdue then maybe_push env else pure tt) (push_overdue-Costs env)
          (λ overdue. Costs.branch spent 5 overdue _ _ (maybe_push-Costs env) (λ t. omega arith)))
        s
  iteration-Costs quiet s = maybe_push-Costs env s
  iteration-Costs (broke e) s = omega arith

  run-Costs : (ps : List Poll) → Costs spent (budget ps) (run env c ps)
  unfolding run
  run-Costs [] s = omega arith
  run-Costs (p ∷ ps) s =
      Costs.seq spent (cost p) (budget ps) (iteration env c p) (run env c ps) (iteration-Costs p)
        (run-Costs ps) s

  -- Whatever git answers, the worker's life runs at most nine git commands for each event, five for
  -- each quiet window, five for the final flush, and one more: the question for the git directory.
  pub lifetime-commands :
      (ps : List Poll) (s : State)
      → length (commands (final (lifetime env c ps s)).trace)
        ≤ budget ps + 5 + 1 + length (commands s.trace)
  unfolding lifetime
  lifetime-commands ps s = omega (
    arith,
    Costs.seq spent (budget ps) 5 (catch (run env c ps) (λ e. pure tt)) (maybe_push env)
        (λ t. omega (
          arith,
          Costs.handle spent (budget ps) 0 (run env c ps) (λ e. pure tt) (run-Costs ps)
              (λ e t. omega arith) t,
        ))
        (maybe_push-Costs env) s,
    to_ask_le s.worker.git.git_dir_cache,
  )
