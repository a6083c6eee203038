-- ===== src/Worker/Bounds.antt =====
-- src/obsidian_git_sync/worker.py: the work on one event, in git commands.
use obsidian_git_sync_mcp.Common.{
  Bool, true, false, not, List, [], ◌∷◌, ◌++◌, arith, map, if◌then◌else◌, on_timeout, pure, ◌>>=◌,
  ◌>>◌,
}
use obsidian_git_sync_mcp.Common.Costs
use obsidian_git_sync_mcp.Common.Costs.{Costs}
use obsidian_git_sync_mcp.Common.Rules
use obsidian_git_sync_mcp.Common.Rules.{Keeps}
use obsidian_git_sync_mcp.Text.{Text, codes, text_eq}
use obsidian_git_sync_mcp.Numeral.{pos}
use obsidian_git_sync_mcp.FilePath.{child_text}
use obsidian_git_sync_mcp.Host
use obsidian_git_sync_mcp.Host.{Env, Io, Trace, Code, timeout, GitResult, is_ok}
use obsidian_git_sync_mcp.GitOps
use obsidian_git_sync_mcp.GitOps.{GitOps, identity_args}
use obsidian_git_sync_mcp.Stamping.{stamp_paths, now_utc}
use obsidian_git_sync_mcp.Events.{SyncEvent, mcp_write_kind, sync_sweep_kind}
use obsidian_git_sync_mcp.Config.{Settings}
use obsidian_git_sync_mcp.History.{Command}
use obsidian_git_sync_mcp.History.Silent.{Has, stamp_paths-Keeps, now_utc-Keeps}
use obsidian_git_sync_mcp.Worker.{
  M, lift, log, record_failure, record_clean, Next, give_up, nothing_staged, something_staged,
  stage_phase, commit_phase, stage_and_commit, wants_stamp, stamp_event, handle_mcp_write,
  sweep_message, handle_sync_sweep, dispatch, handle_event, mcp_message,
}
use obsidian_git_sync_mcp.Worker.Spending.{
  asked, spent, run-Costs, lift-Costs, lift_silent-Costs, log-Costs, record_failure-Costs,
  record_clean-Costs,
}

module _ (env : Env) where
  staged-Costs : (g : GitOps) → Costs asked 1 (GitOps.has_staged env g)
  unfolding GitOps.has_staged
  staged-Costs g =
      Costs.bind asked 1 0
        (GitOps.run env g (codes "diff" ∷ codes "--cached" ∷ codes "--quiet" ∷ [])) _
        (run-Costs env g _) λ r t. omega arith

  -- `commit` asks once more for staged changes.
  commit-Costs : (g : GitOps) (message : Text) → Costs asked 2 (GitOps.commit env g message)
  unfolding GitOps.commit
  commit-Costs g message =
      Costs.bind asked 1 1 (GitOps.has_staged env g) _ (staged-Costs g) committed
    where
      committed :
          (staged : Bool)
          → Costs asked 1 (elim staged as (λ b. Io GitResult) [
            | true ↦
                GitOps.run env g (identity_args g ++ (codes "commit" ∷ codes "-m" ∷ message ∷ []))
            | false ↦ pure (record { rc = pos 0; stdout = []; stderr = codes "nothing staged" })
          ])
      committed true t = run-Costs env g _ t
      committed false t = omega arith

  failed_then :
      {A : Type 0} (what : Text) (code : Code) (a : A)
      → Costs spent 0 (do record_failure env what code; pure a)
  failed_then what code a =
      Costs.seq spent 0 0 (record_failure env what code) (pure a)
        (record_failure-Costs env what code) (λ s. omega arith)

  module _ (label : Text) (stage : GitOps → Io GitResult)
      (cheap : (g : GitOps) → Costs asked 1 (stage g)) where
    stage_phase-Costs : Costs spent 2 (stage_phase env label stage)
    unfolding stage_phase
    stage_phase-Costs s =
        Costs.bind spent 1 1 (lift (stage s.worker.git)) _
          (lift-Costs 1 (stage s.worker.git) (cheap s.worker.git))
          (λ staged.
            Costs.branch spent 1 (not (is_ok staged)) _ _
              (Costs.weaken spent 0 1
                (do record_failure env (label ++ codes " stage") (Host.rc staged.rc); pure give_up)
                (omega arith) (failed_then (label ++ codes " stage") (Host.rc staged.rc) give_up))
              (Costs.bind spent 1 0 (lift (GitOps.has_staged env s.worker.git)) _
                (lift-Costs 1 (GitOps.has_staged env s.worker.git) (staged-Costs s.worker.git))
                λ something t. omega arith))
          s

    commit_phase-Costs : (message : Text) → Costs spent 2 (commit_phase env label message)
    unfolding commit_phase
    commit_phase-Costs message s =
        Costs.bind spent 2 0 (lift (GitOps.commit env s.worker.git message)) _
          (lift-Costs 2 (GitOps.commit env s.worker.git message)
            (commit-Costs s.worker.git message))
          (λ result.
            Costs.branch spent 0 (not (is_ok result)) _ _
              (failed_then (label ++ codes " commit") (Host.rc result.rc) false) (λ t. omega arith))
          s

    stage_and_commit-Costs :
        (message : Text) → Costs spent 4 (stage_and_commit env label stage message)
    unfolding stage_and_commit
    stage_and_commit-Costs message =
        Costs.bind spent 2 2
          (on_timeout (stage_phase env label stage)
            (do record_failure env (label ++ codes " stage") timeout; pure give_up))
          _
          (Costs.handle_timeout spent 2 0 (stage_phase env label stage) _ stage_phase-Costs
            (failed_then (label ++ codes " stage") timeout give_up))
          rest
      where
        rest :
            (next : Next)
            → Costs spent 2 (elim next as (λ x. M (Unit {0})) [
              | give_up ↦ pure tt
              | nothing_staged ↦ record_clean env
              | something_staged ↦ (do
                done ←
                    on_timeout
                      (commit_phase env label message)
                      (do record_failure env (label ++ codes " commit") timeout; pure false)
                if done then record_clean env else pure tt)
            ])
        rest give_up s = omega arith
        rest nothing_staged s =
            Costs.weaken spent 0 2 (record_clean env) (omega arith) (record_clean-Costs env) s
        rest something_staged s =
            Costs.bind spent 2 0
              (on_timeout (commit_phase env label message)
                (do record_failure env (label ++ codes " commit") timeout; pure false))
              _
              (Costs.handle_timeout spent 2 0 (commit_phase env label message) _
                (commit_phase-Costs message) (failed_then (label ++ codes " commit") timeout false))
              (λ done. Costs.branch spent 0 done _ _ (record_clean-Costs env) (λ t. omega arith)) s

  stamp_event-Costs : (event : SyncEvent) → Costs spent 0 (stamp_event env event)
  unfolding stamp_event
  stamp_event-Costs event s =
      let ps = map (child_text s.worker.git.vault) event.paths in
      Costs.handle spent 0 0 (lift (stamp_paths env ps)) (λ e. log Host.stamping_skipped)
        (lift_silent-Costs (stamp_paths env ps) (λ h. stamp_paths-Keeps env h ps))
        (λ e. log-Costs env Host.stamping_skipped) s

  handle_mcp_write-Costs :
      (c : Settings) (event : SyncEvent) → Costs spent 4 (handle_mcp_write env c event)
  unfolding handle_mcp_write GitOps.add
  handle_mcp_write-Costs c event = go event.paths
    where
      go :
          (paths : List Text)
          → Costs spent 4 (elim paths as (λ x. M (Unit {0})) [
            | [] ↦ pure tt
            | p ∷ ps ↦ (do
              if wants_stamp env c event then stamp_event env event else pure tt
              stage_and_commit env
                  (codes "mcp")
                  (λ g. GitOps.add env g event.paths)
                  (mcp_message event.operation event.paths))
          ])
      go [] s = omega arith
      go (p ∷ ps) s =
          Costs.seq spent 0 4 (if wants_stamp env c event then stamp_event env event else pure tt) _
            (Costs.branch spent 0 (wants_stamp env c event) _ _ (stamp_event-Costs event)
              (λ t. omega arith))
            (stage_and_commit-Costs (codes "mcp") (λ g. GitOps.add env g event.paths)
              (λ g. run-Costs env g _) (mcp_message event.operation event.paths))
            s

  sweep_message-Keeps : (h : List Command) → Keeps (Has h) (sweep_message env)
  unfolding sweep_message
  sweep_message-Keeps h =
      Rules.bind (Has h) (now_utc env) (λ ts. pure (codes "sync: auto " ++ ts))
        (now_utc-Keeps env h) (λ ts t e. e)

  handle_sync_sweep-Costs : Costs spent 4 (handle_sync_sweep env)
  unfolding handle_sync_sweep GitOps.add_all
  handle_sync_sweep-Costs =
      Costs.bind spent 0 4 (lift (sweep_message env)) _
        (lift_silent-Costs (sweep_message env) (λ h. sweep_message-Keeps h))
        (λ message.
          stage_and_commit-Costs (codes "sweep") (λ g. GitOps.add_all env g)
            (λ g. run-Costs env g _) message)

  dispatch-Costs : (c : Settings) (event : SyncEvent) → Costs spent 4 (dispatch env c event)
  unfolding dispatch
  dispatch-Costs c event =
      Costs.branch spent 4 (text_eq event.kind mcp_write_kind) _ _ (handle_mcp_write-Costs c event)
        (Costs.branch spent 4 (text_eq event.kind sync_sweep_kind) _ _ handle_sync_sweep-Costs
          (λ s. omega arith))

  pub handle_event-Costs :
      (c : Settings) (event : SyncEvent) → Costs spent 4 (handle_event env c event)
  unfolding handle_event
  handle_event-Costs c event =
      Costs.handle spent 4 0 (dispatch env c event) (λ e. log (Host.handling_failed event.kind))
        (dispatch-Costs c event) (λ e. log-Costs env (Host.handling_failed event.kind))
