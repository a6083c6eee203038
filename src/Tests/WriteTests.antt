-- ===== src/Tests/WriteTests.antt =====
-- Theorems on events whose changes git finds, at concrete inputs.
use obsidian_git_sync_mcp.Common.{◌≡◌, ◌++◌, final, List, ap, refl, some, [], ◌∷◌}
use obsidian_git_sync_mcp.Common.Ends.{Ends}
use obsidian_git_sync_mcp.Text.{codes}
use obsidian_git_sync_mcp.Host.{Env, Reply, exited, is_ok}
use obsidian_git_sync_mcp.History.{Verb, verb, inspecting}
use obsidian_git_sync_mcp.Events.{mcp_write, sync_sweep}
use obsidian_git_sync_mcp.Worker.{handle_event, mcp_message}
use obsidian_git_sync_mcp.Worker.Committed.{Commits}
use obsidian_git_sync_mcp.Worker.Written.{
  IsCommitted, add_paths, add_all_args, sweep_text, handle_event-IsCommitted,
}
use obsidian_git_sync_mcp.Worker.Messages.{told}
use obsidian_git_sync_mcp.Loop.{Poll, arrived, quiet, lifetime}
use obsidian_git_sync_mcp.Loop.Messages.{due_over, lifetime-told}
use obsidian_git_sync_mcp.Tests.World.{world, success, failure, start, settings}

-- A git that finds changes at each comparison, and with which all else succeeds.
abbrev answer_to : Verb → Reply
answer_to inspecting = exited failure
answer_to v = exited success

abbrev changed : Env
changed = record (world (exited success)) { git = λ t line. answer_to (verb line) }

changed-Commits : Commits changed
unfolding is_ok
changed-Commits = record {
  stages = λ t line v. (success, (ap answer_to v, refl));
  finds = λ t line v. (failure, (ap answer_to v, refl));
  commits = λ t line v. (success, (ap answer_to v, refl));
}

handle_event-IsCommitted_example :
    Ends {A = Unit {0}}
      (λ a.
        IsCommitted start
          (add_paths (codes "a.md" ∷ []))
          (mcp_message (some (codes "updated")) (codes "a.md" ∷ [])))
      (λ u. ⊥)
      (handle_event changed settings (mcp_write (codes "updated") (codes "a.md" ∷ [])) start)
    × Ends {A = Unit {0}}
        (λ a. IsCommitted start add_all_args (sweep_text changed start))
        (λ u. ⊥)
        (handle_event changed settings (sync_sweep (codes "timer")) start)
handle_event-IsCommitted_example =
    handle_event-IsCommitted changed changed-Commits settings (codes "updated") (codes "a.md") []
      (codes "timer") start

abbrev polls : List Poll
polls =
    arrived (mcp_write (codes "updated") (codes "a.md" ∷ []))
    ∷ quiet
    ∷ arrived (sync_sweep (codes "timer"))
    ∷ []

lifetime-told_example :
    told (final (lifetime changed settings polls start))
    ≡ due_over changed settings start polls ++ told start
lifetime-told_example = lifetime-told changed changed-Commits settings polls start
