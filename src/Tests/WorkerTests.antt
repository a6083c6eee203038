-- ===== src/Tests/WorkerTests.antt =====
-- Theorems on the worker and its push cycle at concrete inputs.
use obsidian_git_sync_mcp.Common.{
  ◌≡◌, ◌≤◌, ◌+◌, refl, false, length, Returns, returned, final, List, [], ◌∷◌, ◌++◌,
}
use obsidian_git_sync_mcp.Text.{Text, codes, nonempty}
use obsidian_git_sync_mcp.Numeral.{pos, finite, ge_float, sub_ℕ}
use obsidian_git_sync_mcp.Host.{Env, Trace, exited, timed_out, logged, ran, git_timed_out, is_ok}
use obsidian_git_sync_mcp.Events.{mcp_write, sync_sweep}
use obsidian_git_sync_mcp.GitOps.{argv, credential_args, has_staged, add_all, run as run_git}
use obsidian_git_sync_mcp.History.{
  Command, CommitsStaged, commands, has_open_rebase, has_pending, IsSettled,
}
use obsidian_git_sync_mcp.Stamping.{now_utc}
use obsidian_git_sync_mcp.Worker.{
  State, handle_event, dispatch, handle_sync_sweep, sweep_message, stage_and_commit,
}
use obsidian_git_sync_mcp.Worker.Tracking.{IsTracked}
use obsidian_git_sync_mcp.Common.Ends.{Ends}
use obsidian_git_sync_mcp.History.Verbs.{verb-add_all}
use obsidian_git_sync_mcp.Worker.Failing.{Failing}
use obsidian_git_sync_mcp.Worker.Verdict.{IsJudged, stage_and_commit-IsJudged}
use obsidian_git_sync_mcp.Push.{maybe_push}
use obsidian_git_sync_mcp.Push.Aborts.{maybe_push-IsSettled}
use obsidian_git_sync_mcp.Push.Grammar.{Cycle}
use obsidian_git_sync_mcp.Push.Sequence.{maybe_push-Cycle}
use obsidian_git_sync_mcp.Push.Timeouts.{maybe_push_rebase_timeout}
use obsidian_git_sync_mcp.Loop.{Poll, arrived, quiet, iteration, run, lifetime}
use obsidian_git_sync_mcp.Loop.Safety.{lifetime-IsTracked, run-Returns}
use obsidian_git_sync_mcp.Loop.Commits.{lifetime-CommitsStaged}
use obsidian_git_sync_mcp.Loop.Story.{Rounds, lifetime-Rounds}
use obsidian_git_sync_mcp.Push.Taken.{TakesPushes}
use obsidian_git_sync_mcp.Loop.Flushed.{lifetime-Pushed}
use obsidian_git_sync_mcp.Push.Attempts.{first_fetch}
use obsidian_git_sync_mcp.Loop.Attempts.{behind, iteration-attempts}
use obsidian_git_sync_mcp.Loop.Bounds.{budget, lifetime-commands}
use obsidian_git_sync_mcp.Tests.World.{world, success, failure, start, settings, worker}

abbrev polls : List Poll
polls = arrived (mcp_write (codes "updated") (codes "a.md" ∷ [])) ∷ quiet ∷ []

lifetime-IsTracked_example :
    IsTracked (final (lifetime (world (exited failure)) settings polls start))
lifetime-IsTracked_example =
    lifetime-IsTracked (world (exited failure)) settings polls start (λ p. refl)

run-Returns_example : Returns (run (world timed_out) settings polls start)
run-Returns_example = run-Returns (world timed_out) settings polls start (tt, (tt, tt))

maybe_push-IsSettled_example :
    IsSettled (commands (final (maybe_push (world (exited failure)) start)).trace)
unfolding commands has_open_rebase
maybe_push-IsSettled_example = maybe_push-IsSettled (world (exited failure)) start (tt, refl)

-- A worker on a configured branch, and a git that answers the fetch and hangs at the rebase.
abbrev on_main : State
on_main = record { worker = record worker { branch = codes "main" }; trace = [] }

abbrev hangs_at_rebase : Env
hangs_at_rebase = record (world timed_out) {
  git = λ t line. elim t [ [] ↦ exited success | a ∷ rest ↦ timed_out ];
}

abbrev fetch_line : List Text
fetch_line = argv on_main.worker.git (
    codes "-c"
    ∷ codes "credential.helper="
    ∷ codes "-c"
    ∷ codes "credential.helper=obsidian-env"
    ∷ codes "fetch"
    ∷ codes "origin"
    ∷ [])

abbrev rebase_line : List Text
rebase_line =
    argv on_main.worker.git
      (codes "rebase" ∷ codes "-X" ∷ codes "theirs" ∷ codes "origin/main" ∷ [])

maybe_push_rebase_timeout_example :
    maybe_push hangs_at_rebase on_main
    ≡ returned tt (record on_main {
      trace =
          logged git_timed_out ∷ ran rebase_line timed_out ∷ ran fetch_line (exited success) ∷ [];
    })
unfolding nonempty is_ok credential_args
maybe_push_rebase_timeout_example =
    maybe_push_rebase_timeout hangs_at_rebase on_main success refl refl refl refl refl refl

stage_and_commit-IsJudged_example :
    Ends {A = Unit {0}}
      (λ a. IsJudged)
      Failing
      (stage_and_commit
        (world (exited failure))
        (codes "sweep")
        (λ g. run_git (world (exited failure)) g (codes "add" ∷ codes "-A" ∷ []))
        (codes "sync: auto")
        start)
stage_and_commit-IsJudged_example =
    stage_and_commit-IsJudged (world (exited failure)) (codes "sweep")
      (codes "add" ∷ codes "-A" ∷ []) (λ g. verb-add_all g) (codes "sync: auto") start

lifetime-commands_example :
    length (commands (final (lifetime (world (exited failure)) settings polls start)).trace)
    ≤ budget polls + 5 + 1 + length (commands start.trace)
lifetime-commands_example = lifetime-commands (world (exited failure)) settings polls start

lifetime-CommitsStaged_example :
    CommitsStaged (commands (final (lifetime (world (exited failure)) settings polls start)).trace)
unfolding commands
lifetime-CommitsStaged_example =
    lifetime-CommitsStaged (world (exited failure)) settings polls start tt

maybe_push-Cycle_example : Cycle start.trace (final (maybe_push (world (exited failure)) start))
maybe_push-Cycle_example = maybe_push-Cycle (world (exited failure)) start

lifetime-Rounds_example :
    (u : Trace) × (Rounds (world (exited failure)) start.trace polls u
      × Cycle u (final (lifetime (world (exited failure)) settings polls start)))
lifetime-Rounds_example = lifetime-Rounds (world (exited failure)) settings polls start

takes_pushes : TakesPushes (world (exited success))
unfolding is_ok
takes_pushes = record {
  exits = λ t line. (success, refl);
  takes = λ t line v. (success, (refl, refl));
}

lifetime-Pushed_example :
    has_pending (commands (final (lifetime (world (exited success)) settings polls on_main)).trace)
    ≡ false
unfolding nonempty
lifetime-Pushed_example =
    lifetime-Pushed (world (exited success)) takes_pushes settings polls on_main refl refl
      (λ p. refl)

-- An event behind whose work the interval of no seconds has passed.
abbrev hurried : State
hurried = record {
  worker = record on_main.worker { push_max_interval = finite (pos 0) };
  trace = [];
}

abbrev noted : Poll
noted = arrived (sync_sweep (codes "timer"))

iteration-attempts_example :
    (new : List Command) × (commands
        (final (iteration (world (exited success)) settings noted hurried)).trace
      ≡ new
        ++ first_fetch
            (world (exited success))
            (behind (world (exited success)) settings noted hurried)
          ∷ commands (behind (world (exited success)) settings noted hurried).trace)
unfolding handle_event sweep_message now_utc add_all has_staged run_git ge_float sub_ℕ nonempty
    sync_sweep is_ok dispatch handle_sync_sweep stage_and_commit
iteration-attempts_example =
    iteration-attempts (world (exited success)) settings noted hurried refl (refl, (refl, refl))
