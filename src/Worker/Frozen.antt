-- ===== src/Worker/Frozen.antt =====
-- src/obsidian_git_sync/worker.py: the configuration of a worker, which the work on an event leaves
-- alone.
use obsidian_git_sync_mcp.Common.{
  ℕ, Bool, true, false, not, Option, none, some, List, [], ◌∷◌, ◌++◌, map, if◌then◌else◌, Run,
  returned, raised, final, on_timeout, pure, ◌>>=◌, ◌>>◌,
}
use obsidian_git_sync_mcp.Common.Rules.{Keeps, bind, seq, pick, handle, handle_timeout}
use obsidian_git_sync_mcp.Text.{Text, codes, text_eq}
use obsidian_git_sync_mcp.FilePath.{FilePath, child_text}
use obsidian_git_sync_mcp.Host
use obsidian_git_sync_mcp.Host.{Env, Io, Trace, Code, timeout, GitResult, is_ok}
use obsidian_git_sync_mcp.GitOps
use obsidian_git_sync_mcp.GitOps.{GitOps}
use obsidian_git_sync_mcp.Locks.{describe_present}
use obsidian_git_sync_mcp.Stamping.{stamp_paths}
use obsidian_git_sync_mcp.Events.{SyncEvent, mcp_write_kind, sync_sweep_kind}
use obsidian_git_sync_mcp.Config.{Settings}
use obsidian_git_sync_mcp.Worker.{
  Worker, State, M, lift, log, modify, git_dir, lock_note, report_failure, record_failure,
  record_clean, code_eq, Next, give_up, nothing_staged, something_staged, stage_phase, commit_phase,
  stage_and_commit, wants_stamp, stamp_event, handle_mcp_write, sweep_message, handle_sync_sweep,
  dispatch, handle_event, mcp_message,
}

-- What is said of a worker without its git wrapper, the marks and the clock of its pushes and health.
abbrev pub OfConfiguration : (Worker → Type 0) → Type 0
OfConfiguration P =
    (w : Worker) (git : GitOps) (unpushed : Bool) (last_push : ℕ) (degraded_rc : Option Code)
    → P w
    → P (record w {
      git = git;
      unpushed = unpushed;
      last_push = last_push;
      degraded_rc = degraded_rc;
    })

module _ (P : Worker → Type 0) (configured : OfConfiguration P) (env : Env) (c : Settings) where
  abbrev pub Kept : State → Type 0
  Kept s = P s.worker

  pub lift-Kept : {A : Type 0} (io : Io A) → Keeps Kept (lift io)
  lift-Kept {A} io s p = go (io s.trace)
    where
      go :
          (r : Run Trace A)
          → Kept (
              final {S = State} {A = A} (elim r [
                | returned a t ↦ returned a (record s { trace = t })
                | raised e t ↦ raised e (record s { trace = t })
              ]))
      go (returned a t) = p
      go (raised e t) = p

  git_dir-Kept : Keeps Kept (git_dir env)
  unfolding git_dir
  git_dir-Kept s p = go (GitOps.git_dir env (s.worker.git, s.trace))
    where
      go :
          (r : Run (GitOps × Trace) FilePath)
          → Kept (
              final {S = State} {A = FilePath} (elim r [
                | returned d (g, t) ↦
                    returned d (record { worker = record s.worker { git = g }; trace = t })
                | raised e (g, t) ↦
                    raised e (record { worker = record s.worker { git = g }; trace = t })
              ]))
      go (returned d (g, t)) =
          configured s.worker g s.worker.unpushed s.worker.last_push s.worker.degraded_rc p
      go (raised e (g, t)) =
          configured s.worker g s.worker.unpushed s.worker.last_push s.worker.degraded_rc p

  lock_note-Kept : Keeps Kept (lock_note env)
  unfolding lock_note
  lock_note-Kept = bind Kept (git_dir env) _ git_dir-Kept λ gitdir.
      bind Kept (lift (describe_present env gitdir)) _ (lift-Kept (describe_present env gitdir))
        λ present s p. p

  report_failure-Kept :
      (prior : Option Code) (what : Text) (code : Code)
      → Keeps Kept (report_failure env prior what code)
  unfolding report_failure
  report_failure-Kept none what code = bind Kept (lock_note env) _ lock_note-Kept λ note s p. p
  report_failure-Kept (some prior) what code =
      pick Kept (code_eq code prior) _ _ (λ s p. p)
        (bind Kept (lock_note env) _ lock_note-Kept λ note s p. p)

  degrades : (o : Option Code) → Keeps Kept (modify (λ w. record w { degraded_rc = o }))
  degrades o s p = configured s.worker s.worker.git s.worker.unpushed s.worker.last_push o p

  failed_then :
      {A : Type 0} (what : Text) (code : Code) (a : A)
      → Keeps Kept (do record_failure env what code; pure a)
  unfolding record_failure
  failed_then what code a s =
      seq Kept (record_failure env what code) (pure a)
        (λ u.
          seq Kept (report_failure env u.worker.degraded_rc what code)
            (modify (λ w. record w { degraded_rc = some code }))
            (report_failure-Kept u.worker.degraded_rc what code) (degrades (some code)) u)
        (λ u p. p) s

  record_clean-Kept : Keeps Kept (record_clean env)
  unfolding record_clean
  record_clean-Kept s p = go s.worker.degraded_rc
    where
      go :
          (o : Option Code)
          → Kept (
              final {S = State} {A = Unit {0}} (elim o [
                | none ↦ modify (λ w. record w { degraded_rc = none }) s
                | some code ↦
                    (do log (Host.recovered code); modify (λ w. record w { degraded_rc = none })) s
              ]))
      go none = degrades none s p
      go (some code) = degrades none s p

  stage_and_commit-Kept :
      (label : Text) (stage : GitOps → Io GitResult) (message : Text)
      → Keeps Kept (stage_and_commit env label stage message)
  unfolding stage_and_commit stage_phase commit_phase
  stage_and_commit-Kept label stage message =
      bind Kept
        (on_timeout (stage_phase env label stage)
          (do record_failure env (label ++ codes " stage") timeout; pure give_up))
        _
        (handle_timeout Kept (stage_phase env label stage) _
          (λ s.
            bind Kept (lift (stage s.worker.git)) _ (lift-Kept (stage s.worker.git))
              (λ staged. pick Kept (not (is_ok staged)) _ _ (failed_then _ _ give_up) (
                bind Kept (lift (GitOps.has_staged env s.worker.git)) _
                  (lift-Kept (GitOps.has_staged env s.worker.git)) λ something u p. p))
              s)
          (failed_then _ timeout give_up))
        rest
    where
      rest :
          (next : Next)
          → Keeps Kept (elim next as (λ x. M (Unit {0})) [
            | give_up ↦ pure tt
            | nothing_staged ↦ record_clean env
            | something_staged ↦ (do
              done ←
                  on_timeout
                    (commit_phase env label message)
                    (do record_failure env (label ++ codes " commit") timeout; pure false)
              if done then record_clean env else pure tt)
          ])
      rest give_up s p = p
      rest nothing_staged s p = record_clean-Kept s p
      rest something_staged s p =
          bind Kept
            (on_timeout (commit_phase env label message)
              (do record_failure env (label ++ codes " commit") timeout; pure false))
            _
            (handle_timeout Kept (commit_phase env label message) _
              (λ u.
                bind Kept (lift (GitOps.commit env u.worker.git message)) _
                  (lift-Kept (GitOps.commit env u.worker.git message))
                  (λ result. pick Kept (not (is_ok result)) _ _ (failed_then _ _ false) λ v p.
                    configured v.worker v.worker.git true v.worker.last_push v.worker.degraded_rc p)
                  u)
              (failed_then _ timeout false))
            (λ done. pick Kept done _ _ record_clean-Kept (λ u p. p)) s p

  stamp_event-Kept : (event : SyncEvent) → Keeps Kept (stamp_event env event)
  unfolding stamp_event
  stamp_event-Kept event s =
      let ps = map (child_text s.worker.git.vault) event.paths in
      handle Kept (lift (stamp_paths env ps)) (λ e. log Host.stamping_skipped)
        (lift-Kept (stamp_paths env ps)) (λ e u p. p) s

  handle_mcp_write-Kept : (event : SyncEvent) → Keeps Kept (handle_mcp_write env c event)
  unfolding handle_mcp_write
  handle_mcp_write-Kept event = go event.paths
    where
      go :
          (paths : List Text)
          → Keeps Kept (elim paths as (λ x. M (Unit {0})) [
            | [] ↦ pure tt
            | p ∷ ps ↦ (do
              if wants_stamp env c event then stamp_event env event else pure tt
              stage_and_commit env
                  (codes "mcp")
                  (λ g. GitOps.add env g event.paths)
                  (mcp_message event.operation event.paths))
          ])
      go [] s p = p
      go (q ∷ qs) s p =
          seq Kept (if wants_stamp env c event then stamp_event env event else pure tt) _
            (pick Kept (wants_stamp env c event) _ _ (stamp_event-Kept event) (λ u p. p))
            (stage_and_commit-Kept (codes "mcp") (λ g. GitOps.add env g event.paths)
              (mcp_message event.operation event.paths))
            s p

  handle_sync_sweep-Kept : Keeps Kept (handle_sync_sweep env)
  unfolding handle_sync_sweep
  handle_sync_sweep-Kept =
      bind Kept (lift (sweep_message env)) _ (lift-Kept (sweep_message env))
        (λ message. stage_and_commit-Kept (codes "sweep") (λ g. GitOps.add_all env g) message)

  pub handle_event-Kept : (event : SyncEvent) → Keeps Kept (handle_event env c event)
  unfolding handle_event dispatch
  handle_event-Kept event =
      handle Kept (dispatch env c event) (λ e. log (Host.handling_failed event.kind))
        (pick Kept (text_eq event.kind mcp_write_kind) _ _ (handle_mcp_write-Kept event)
          (pick Kept (text_eq event.kind sync_sweep_kind) _ _ handle_sync_sweep-Kept (λ s p. p)))
        (λ e s p. p)
