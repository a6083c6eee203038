-- ===== src/Worker/Cycle.antt =====
-- src/obsidian_git_sync/worker.py: the mark of unpushed commits, through a whole cycle.
use obsidian_git_sync_mcp.Common
use obsidian_git_sync_mcp.Common.{
  ◌≡◌, ◌≢◌, refl, sym, ◌∙◌, Bool, true, false, not, Option, none, some, List, [], ◌∷◌, ◌++◌, arith,
  ◌>>=◌, ◌>>◌, pure, if◌then◌else◌, Exn, Run, returned, raised, final, map, Bool-cases, inl, inr,
  catch,
}
use obsidian_git_sync_mcp.Common.Rules.{Keeps, bind, seq, handle, handle_timeout}
use obsidian_git_sync_mcp.Text.{Text, codes}
use obsidian_git_sync_mcp.FilePath.{child_text}
use obsidian_git_sync_mcp.Host
use obsidian_git_sync_mcp.Host.{Env, Io, Trace, timeout, is_ok, GitResult}
use obsidian_git_sync_mcp.GitOps
use obsidian_git_sync_mcp.GitOps.{GitOps}
use obsidian_git_sync_mcp.History.{Command, commands, has_pending}
use obsidian_git_sync_mcp.History.Verbs.{verb-add, verb-add_all, staging_ne}
use obsidian_git_sync_mcp.History.Silent.{Has, stamp_paths-Keeps}
use obsidian_git_sync_mcp.History.Laws.{CommitOutcome, commit-CommitOutcome, has_staged_pending}
use obsidian_git_sync_mcp.Events.{SyncEvent}
use obsidian_git_sync_mcp.Config.{Settings}
use obsidian_git_sync_mcp.Stamping.{stamp_paths}
use obsidian_git_sync_mcp.Worker.{
  Worker, State, M, lift, modify, record_failure, record_clean, stage_phase, commit_phase,
  stage_and_commit, Next, give_up, nothing_staged, something_staged, wants_stamp, stamp_event,
  handle_mcp_write, handle_sync_sweep, dispatch, handle_event, sweep_message, mcp_message, log,
}
use obsidian_git_sync_mcp.Worker.Tracking.{
  IsTracked, lift_silent, lift-run, lift-IsTracked, record_failure-IsTracked,
  record_clean-IsTracked,
}

module _ (env : Env) where
  has_staged-IsTracked : (g : GitOps) → Keeps IsTracked (lift (GitOps.has_staged env g))
  has_staged-IsTracked g = lift-IsTracked (GitOps.has_staged env g) (has_staged_pending env g)

  -- The result of `commit` on its way into the flag.
  commit_result :
      (label : Text) (w : Worker) (cs : List Command) (r : Run Trace GitResult)
      → CommitOutcome cs r
      → (has_pending cs ≡ true → w.unpushed ≡ true)
      → IsTracked (
          final {A = Bool}
            (elim (elim r as (λ x. Run State GitResult) [
              | returned a t ↦ returned a (record { worker = w; trace = t })
              | raised e t ↦ raised e (record { worker = w; trace = t })
            ]) [
              | returned result s' ↦
                  (if not (is_ok result)
                      then record_failure env (label ++ codes " commit") (Host.rc result.rc)
                        >> pure false
                      else modify (λ w. record w { unpushed = true }) >> pure true)
                    s'
              | raised e s' ↦ raised e s'
            ]))
  commit_result label w cs (returned r t) c k = elim (Bool-cases (is_ok r)) [
    | inl e ↦ rw e (λ p. refl)
    | inr e ↦ rw e (
        seq IsTracked (record_failure env (label ++ codes " commit") (Host.rc r.rc)) (pure false)
          (record_failure-IsTracked env _ _) (λ s i. i) (record { worker = w; trace = t })
          (λ p. k (c e p)))
  ]
  commit_result label w cs (raised x t) c k = λ p. k (c p)

  commit_phase-IsTracked : (label message : Text) → Keeps IsTracked (commit_phase env label message)
  unfolding commit_phase
  commit_phase-IsTracked label message s i =
      commit_result label s.worker (commands s.trace)
        (GitOps.commit env s.worker.git message s.trace)
        (commit-CommitOutcome env s.worker.git message s.trace) i

  module _ (label : Text) (stage : GitOps → Io GitResult)
      (staged_tracked : (g : GitOps) → Keeps IsTracked (lift (stage g))) where
    stage_phase-IsTracked : Keeps IsTracked (stage_phase env label stage)
    unfolding stage_phase
    stage_phase-IsTracked s =
        bind IsTracked (lift (stage s.worker.git)) _ (staged_tracked s.worker.git) (λ r. next r) s
      where
        next :
            (r : GitResult)
            → Keeps IsTracked (
                if not (is_ok r)
                then (do record_failure env (label ++ codes " stage") (Host.rc r.rc); pure give_up)
                else (do
                  something ← lift (GitOps.has_staged env s.worker.git)
                  pure (if something then something_staged else nothing_staged)))
        next r = elim (Bool-cases (is_ok r)) [
          | inl e ↦ rw e (
              bind IsTracked (lift (GitOps.has_staged env s.worker.git))
                (λ something. pure (if something then something_staged else nothing_staged))
                (has_staged-IsTracked s.worker.git) (λ b t j. j))
          | inr e ↦ rw e (
              seq IsTracked (record_failure env (label ++ codes " stage") (Host.rc r.rc))
                (pure give_up) (record_failure-IsTracked env _ _) (λ t j. j))
        ]

    finish : (done : Bool) → Keeps IsTracked (if done then record_clean env else pure tt)
    finish true s i = record_clean-IsTracked env s i
    finish false s i = i

    commit_next :
        (message : Text) (next : Next)
        → Keeps IsTracked (elim next as (λ n. M (Unit {0})) [
          | give_up ↦ pure tt
          | nothing_staged ↦ record_clean env
          | something_staged ↦ (do
            done ←
                Common.on_timeout
                  (commit_phase env label message)
                  (do record_failure env (label ++ codes " commit") timeout; pure false)
            if done then record_clean env else pure tt)
        ])
    commit_next message give_up s i = i
    commit_next message nothing_staged s i = record_clean-IsTracked env s i
    commit_next message something_staged s i =
        bind IsTracked
          (Common.on_timeout (commit_phase env label message)
            (record_failure env (label ++ codes " commit") timeout >> pure false))
          (λ done. if done then record_clean env else pure tt)
          (handle_timeout IsTracked (commit_phase env label message)
            (record_failure env (label ++ codes " commit") timeout >> pure false)
            (commit_phase-IsTracked label message)
            (seq IsTracked (record_failure env (label ++ codes " commit") timeout) (pure false)
              (record_failure-IsTracked env _ _) (λ t j. j)))
          finish s i

    pub stage_and_commit-IsTracked :
        (message : Text) → Keeps IsTracked (stage_and_commit env label stage message)
    unfolding stage_and_commit
    stage_and_commit-IsTracked message =
        bind IsTracked
          (Common.on_timeout (stage_phase env label stage)
            (record_failure env (label ++ codes " stage") timeout >> pure give_up))
          _
          (handle_timeout IsTracked (stage_phase env label stage)
            (record_failure env (label ++ codes " stage") timeout >> pure give_up)
            stage_phase-IsTracked
            (seq IsTracked (record_failure env (label ++ codes " stage") timeout) (pure give_up)
              (record_failure-IsTracked env _ _) (λ t j. j)))
          (commit_next message)

  add-IsTracked : (paths : List Text) (g : GitOps) → Keeps IsTracked (lift (GitOps.add env g paths))
  unfolding GitOps.add
  add-IsTracked paths g = lift-run env g _ (λ v. staging_ne (sym (verb-add g paths) ∙ v))

  add_all-IsTracked : (g : GitOps) → Keeps IsTracked (lift (GitOps.add_all env g))
  unfolding GitOps.add_all
  add_all-IsTracked g = lift-run env g _ (λ v. staging_ne (sym (verb-add_all g) ∙ v))

  stamp_event-IsTracked : (event : SyncEvent) → Keeps IsTracked (stamp_event env event)
  unfolding stamp_event
  stamp_event-IsTracked event s =
      handle IsTracked (lift (stamp_paths env (map (child_text s.worker.git.vault) event.paths)))
        (λ e. log Host.stamping_skipped) (lift_silent _ (λ h. stamp_paths-Keeps env h _))
        (λ e t i. unfold commands in i) s

  stamping-IsTracked :
      (event : SyncEvent) (wanted : Bool)
      → Keeps IsTracked (if wanted then stamp_event env event else pure tt)
  stamping-IsTracked event true s i = stamp_event-IsTracked event s i
  stamping-IsTracked event false s i = i

  write_paths-IsTracked :
      (c : Settings) (event : SyncEvent) (paths : List Text)
      → Keeps IsTracked (elim paths as (λ p. M (Unit {0})) [
        | [] ↦ pure tt
        | p ∷ ps ↦ (do
          if wants_stamp env c event then stamp_event env event else pure tt
          stage_and_commit env
              (codes "mcp")
              (λ g. GitOps.add env g event.paths)
              (mcp_message event.operation event.paths))
      ])
  write_paths-IsTracked c event [] s i = i
  write_paths-IsTracked c event (p ∷ ps) s i =
      seq IsTracked (if wants_stamp env c event then stamp_event env event else pure tt)
        (stage_and_commit env (codes "mcp") (λ g. GitOps.add env g event.paths)
          (mcp_message event.operation event.paths))
        (stamping-IsTracked event (wants_stamp env c event))
        (stage_and_commit-IsTracked (codes "mcp") (λ g. GitOps.add env g event.paths)
          (add-IsTracked event.paths) (mcp_message event.operation event.paths))
        s i

  handle_mcp_write-IsTracked :
      (c : Settings) (event : SyncEvent) → Keeps IsTracked (handle_mcp_write env c event)
  unfolding handle_mcp_write
  handle_mcp_write-IsTracked c event s i = write_paths-IsTracked c event event.paths s i

  sweep_message-Keeps : (h : List Command) → Keeps (Has h) (sweep_message env)
  unfolding sweep_message commands
  sweep_message-Keeps h t e = e

  handle_sync_sweep-IsTracked : Keeps IsTracked (handle_sync_sweep env)
  unfolding handle_sync_sweep
  handle_sync_sweep-IsTracked =
      bind IsTracked (lift (sweep_message env))
        (stage_and_commit env (codes "sweep") (λ g. GitOps.add_all env g))
        (lift_silent (sweep_message env) sweep_message-Keeps)
        (stage_and_commit-IsTracked (codes "sweep") (λ g. GitOps.add_all env g) add_all-IsTracked)

  dispatch-IsTracked : (c : Settings) (event : SyncEvent) → Keeps IsTracked (dispatch env c event)
  unfolding dispatch
  dispatch-IsTracked c event s i =
      ground (arith, handle_mcp_write-IsTracked c event s i, handle_sync_sweep-IsTracked s i)

  pub handle_event-IsTracked :
      (c : Settings) (event : SyncEvent) → Keeps IsTracked (handle_event env c event)
  unfolding handle_event commands
  handle_event-IsTracked c event =
      handle IsTracked (dispatch env c event) (λ e. log (Host.handling_failed event.kind))
        (dispatch-IsTracked c event) (λ e t i. i)
