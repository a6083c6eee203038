-- ===== src/Worker/Commits.antt =====
-- src/obsidian_git_sync/worker.py: the work on an event commits only what was found to be staged.
use obsidian_git_sync_mcp.Common.{
  sym, ◌∙◌, false, not, [], ◌∷◌, ◌++◌, if◌then◌else◌, final, on_timeout, pure, ◌>>=◌, ◌>>◌,
}
use obsidian_git_sync_mcp.Common.Rules.{Keeps, bind, handle_timeout, pick}
use obsidian_git_sync_mcp.Text.{Text, codes}
use obsidian_git_sync_mcp.Host
use obsidian_git_sync_mcp.Host.{Env, Io, Trace, Code, timeout, GitResult, is_ok}
use obsidian_git_sync_mcp.GitOps
use obsidian_git_sync_mcp.GitOps.{GitOps}
use obsidian_git_sync_mcp.History.{CommitsStaged}
use obsidian_git_sync_mcp.History.Verbs.{verb-rev_parse, verb-diff, other_ne, inspecting_ne}
use obsidian_git_sync_mcp.History.Staged.{IsStaged, run-IsStaged, lift-IsStaged, commit-IsStaged}
use obsidian_git_sync_mcp.Worker.{
  M, lift, record_failure, record_clean, Next, give_up, nothing_staged, something_staged,
  stage_phase, commit_phase, stage_and_commit,
}
use obsidian_git_sync_mcp.Worker.Reports.{dir_args, failed_then, record_clean-Kept}
use obsidian_git_sync_mcp.Push.Commitless.{Staged}

module _ (env : Env) where
  asks_dir : (g : GitOps) (t : Trace) → IsStaged t → IsStaged (final (GitOps.run env g dir_args t))
  asks_dir g t = run-IsStaged env g dir_args (λ v. other_ne (sym (verb-rev_parse g) ∙ v)) t

  record_clean-Staged : Keeps Staged (record_clean env)
  record_clean-Staged = record_clean-Kept env CommitsStaged asks_dir

  stops :
      {A : Type 0} (what : Text) (code : Code) (a : A)
      → Keeps Staged (do record_failure env what code; pure a)
  stops = failed_then env CommitsStaged asks_dir

  module _ (label : Text) (stage : GitOps → Io GitResult)
      (stages : (g : GitOps) → Keeps IsStaged (stage g)) where
    stage_phase-Staged : Keeps Staged (stage_phase env label stage)
    unfolding stage_phase GitOps.has_staged
    stage_phase-Staged s =
        let g = s.worker.git in
        bind Staged (lift (stage g)) _ (lift-IsStaged (stage g) (stages g))
          (λ staged.
            pick Staged (not (is_ok staged)) _ _
              (stops (label ++ codes " stage") (Host.rc staged.rc) give_up)
              (bind Staged (lift (GitOps.has_staged env g)) _
                (lift-IsStaged (GitOps.has_staged env g) (
                  bind IsStaged
                    (GitOps.run env g (codes "diff" ∷ codes "--cached" ∷ codes "--quiet" ∷ []))
                    (λ r. pure (not (is_ok r)))
                    (run-IsStaged env g _ (λ v. inspecting_ne (sym (verb-diff g) ∙ v))) λ r t j. j))
                λ something t j. j))
          s

    commit_phase-Staged : (message : Text) → Keeps Staged (commit_phase env label message)
    unfolding commit_phase
    commit_phase-Staged message s =
        bind Staged (lift (GitOps.commit env s.worker.git message)) _
          (lift-IsStaged (GitOps.commit env s.worker.git message)
            (commit-IsStaged env s.worker.git message))
          (λ result.
            pick Staged (not (is_ok result)) _ _
              (stops (label ++ codes " commit") (Host.rc result.rc) false) (λ t i. i))
          s

    pub stage_and_commit-Staged :
        (message : Text) → Keeps Staged (stage_and_commit env label stage message)
    unfolding stage_and_commit
    stage_and_commit-Staged message =
        bind Staged
          (on_timeout (stage_phase env label stage)
            (do record_failure env (label ++ codes " stage") timeout; pure give_up))
          _
          (handle_timeout Staged (stage_phase env label stage) _ stage_phase-Staged
            (stops (label ++ codes " stage") timeout give_up))
          rest
      where
        rest :
            (next : Next)
            → Keeps Staged (elim next as (λ x. M (Unit {0})) [
              | give_up ↦ pure tt
              | nothing_staged ↦ record_clean env
              | something_staged ↦ (do
                done ←
                    on_timeout
                      (commit_phase env label message)
                      (do record_failure env (label ++ codes " commit") timeout; pure false)
                if done then record_clean env else pure tt)
            ])
        rest give_up s i = i
        rest nothing_staged s i = record_clean-Staged s i
        rest something_staged s i =
            bind Staged
              (on_timeout (commit_phase env label message)
                (do record_failure env (label ++ codes " commit") timeout; pure false))
              _
              (handle_timeout Staged (commit_phase env label message) _
                (commit_phase-Staged message) (stops (label ++ codes " commit") timeout false))
              (λ done. pick Staged done _ _ record_clean-Staged (λ t j. j)) s i
