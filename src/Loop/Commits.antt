-- ===== src/Loop/Commits.antt =====
-- src/obsidian_git_sync/worker.py: the worker's whole life commits only what was found to be staged.
use obsidian_git_sync_mcp.Common.{
  ◌≡◌, sym, ◌∙◌, List, [], ◌∷◌, ◌++◌, map, if◌then◌else◌, final, catch, pure, ◌>>◌,
}
use obsidian_git_sync_mcp.Common.Rules.{Keeps, bind, seq, handle, pick}
use obsidian_git_sync_mcp.Text.{Text, codes, text_eq}
use obsidian_git_sync_mcp.FilePath.{child_text}
use obsidian_git_sync_mcp.Host
use obsidian_git_sync_mcp.Host.{Env}
use obsidian_git_sync_mcp.GitOps
use obsidian_git_sync_mcp.Stamping.{stamp_paths, now_utc}
use obsidian_git_sync_mcp.Events.{SyncEvent, mcp_write_kind, sync_sweep_kind}
use obsidian_git_sync_mcp.Config.{Settings}
use obsidian_git_sync_mcp.History.{commands, CommitsStaged}
use obsidian_git_sync_mcp.History.Verbs.{verb-add, verb-add_all, staging_ne}
use obsidian_git_sync_mcp.History.Silent.{stamp_paths-Keeps, now_utc-Keeps}
use obsidian_git_sync_mcp.History.Staged.{run-IsStaged, silent-IsStaged, lift-IsStaged}
use obsidian_git_sync_mcp.Worker.{
  State, M, lift, log, stage_and_commit, wants_stamp, stamp_event, handle_mcp_write, sweep_message,
  handle_sync_sweep, dispatch, handle_event, mcp_message,
}
use obsidian_git_sync_mcp.Worker.Commits.{stage_and_commit-Staged}
use obsidian_git_sync_mcp.Push.{push_overdue, maybe_push}
use obsidian_git_sync_mcp.Push.Commitless.{
  Staged, log-Staged, maybe_push-Staged, push_overdue-Staged,
}
use obsidian_git_sync_mcp.Loop.{Poll, arrived, quiet, broke, iteration, run, lifetime}

module _ (env : Env) (c : Settings) where
  stamp_event-Staged : (event : SyncEvent) → Keeps Staged (stamp_event env event)
  unfolding stamp_event
  stamp_event-Staged event s =
      let ps = map (child_text s.worker.git.vault) event.paths in
      handle Staged (lift (stamp_paths env ps)) (λ e. log Host.stamping_skipped)
        (lift-IsStaged (stamp_paths env ps)
          (silent-IsStaged (stamp_paths env ps) (λ h. stamp_paths-Keeps env h ps)))
        (λ e. log-Staged Host.stamping_skipped) s

  handle_mcp_write-Staged : (event : SyncEvent) → Keeps Staged (handle_mcp_write env c event)
  unfolding handle_mcp_write GitOps.add
  handle_mcp_write-Staged event = go event.paths
    where
      go :
          (paths : List Text)
          → Keeps Staged (elim paths as (λ x. M (Unit {0})) [
            | [] ↦ pure tt
            | p ∷ ps ↦ (do
              if wants_stamp env c event then stamp_event env event else pure tt
              stage_and_commit env
                  (codes "mcp")
                  (λ g. GitOps.add env g event.paths)
                  (mcp_message event.operation event.paths))
          ])
      go [] s i = i
      go (p ∷ ps) s i =
          seq Staged (if wants_stamp env c event then stamp_event env event else pure tt) _
            (pick Staged (wants_stamp env c event) _ _ (stamp_event-Staged event) (λ t j. j))
            (stage_and_commit-Staged env (codes "mcp") (λ g. GitOps.add env g event.paths)
              (λ g. run-IsStaged env g _ (λ v. staging_ne (sym (verb-add g event.paths) ∙ v)))
              (mcp_message event.operation event.paths))
            s i

  handle_sync_sweep-Staged : Keeps Staged (handle_sync_sweep env)
  unfolding handle_sync_sweep GitOps.add_all sweep_message
  handle_sync_sweep-Staged =
      bind Staged (lift (sweep_message env))
        (λ message. stage_and_commit env (codes "sweep") (λ g. GitOps.add_all env g) message)
        (lift-IsStaged (sweep_message env) (
          silent-IsStaged (sweep_message env) (λ h.
            bind (λ t. commands t ≡ h) (now_utc env) (λ ts. pure (codes "sync: auto " ++ ts))
              (now_utc-Keeps env h) (λ ts t e. e))))
        (λ message.
          stage_and_commit-Staged env (codes "sweep") (λ g. GitOps.add_all env g)
            (λ g. run-IsStaged env g _ (λ v. staging_ne (sym (verb-add_all g) ∙ v))) message)

  handle_event-Staged : (event : SyncEvent) → Keeps Staged (handle_event env c event)
  unfolding handle_event dispatch
  handle_event-Staged event =
      handle Staged (dispatch env c event) (λ e. log (Host.handling_failed event.kind))
        (pick Staged (text_eq event.kind mcp_write_kind) _ _ (handle_mcp_write-Staged event) (
          pick Staged (text_eq event.kind sync_sweep_kind) _ _ handle_sync_sweep-Staged (λ s i. i)))
        (λ e. log-Staged (Host.handling_failed event.kind))

  iteration-Staged : (p : Poll) → Keeps Staged (iteration env c p)
  unfolding iteration
  iteration-Staged (arrived event) s i =
      seq Staged (handle_event env c event) _ (handle_event-Staged event)
        (bind Staged (push_overdue env) (λ overdue. if overdue then maybe_push env else pure tt)
          (push_overdue-Staged env)
          (λ overdue. pick Staged overdue _ _ (maybe_push-Staged env) (λ t j. j)))
        s i
  iteration-Staged quiet s i = maybe_push-Staged env s i
  iteration-Staged (broke e) s i = i

  pub run-Staged : (ps : List Poll) → Keeps Staged (run env c ps)
  unfolding run
  run-Staged [] s i = i
  run-Staged (p ∷ ps) s i =
      seq Staged (iteration env c p) (run env c ps) (iteration-Staged p) (run-Staged ps) s i

  -- If so far each `git commit` directly followed a `git diff` that found staged changes, then so it
  -- is after the loop and the final flush, whatever git, the disk and the queue do: the worker makes
  -- no commit without changes.
  pub lifetime-CommitsStaged :
      (ps : List Poll) (s : State)
      → CommitsStaged (commands s.trace)
      → CommitsStaged (commands (final (lifetime env c ps s)).trace)
  unfolding lifetime
  lifetime-CommitsStaged ps =
      seq Staged (catch (run env c ps) (λ e. pure tt)) (maybe_push env)
        (handle Staged (run env c ps) (λ e. pure tt) (run-Staged ps) (λ e s i. i))
        (maybe_push-Staged env)
