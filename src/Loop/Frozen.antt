-- ===== src/Loop/Frozen.antt =====
-- src/obsidian_git_sync/worker.py: the configuration of a worker, which its whole life leaves alone.
use obsidian_git_sync_mcp.Common.{
  false, not, ◌||◌, Option, none, some, List, [], ◌∷◌, if◌then◌else◌, Exn, timeout_expired, pure,
  ◌>>◌, Bool-cases, inl, inr,
}
use obsidian_git_sync_mcp.Common.Rules.{Keeps, bind, seq, pick, handle}
use obsidian_git_sync_mcp.Text.{Text, nonempty}
use obsidian_git_sync_mcp.Host
use obsidian_git_sync_mcp.Host.{Env, is_ok}
use obsidian_git_sync_mcp.GitOps
use obsidian_git_sync_mcp.Heartbeat.{ping}
use obsidian_git_sync_mcp.Config.{Settings}
use obsidian_git_sync_mcp.Worker.{Worker, State, M, lift, log, handle_event}
use obsidian_git_sync_mcp.Worker.Frozen.{OfConfiguration, Kept, lift-Kept, handle_event-Kept}
use obsidian_git_sync_mcp.Push.{
  now, push_overdue, resolve_branch, integrate, send, push_once, maybe_push,
}
use obsidian_git_sync_mcp.Loop.{Poll, arrived, quiet, broke, iteration, run}

module _ (P : Worker → Type 0) (configured : OfConfiguration P) (env : Env) (c : Settings) where
  abbrev Fixed : State → Type 0
  Fixed = Kept P configured env c

  lifts : {A : Type 0} (io : Host.Io A) → Keeps Fixed (lift io)
  lifts = lift-Kept P configured env c

  resolve_branch-Fixed : Keeps Fixed (resolve_branch env)
  unfolding resolve_branch
  resolve_branch-Fixed s p = elim (Bool-cases (nonempty s.worker.branch)) [
    | inl e ↦ rw (e, resolve_branch) p
    | inr e ↦ rw (e, resolve_branch) (lifts (GitOps.current_branch env s.worker.git) s p)
  ]

  integrate-Fixed : (branch : Text) → Keeps Fixed (integrate env branch)
  unfolding integrate
  integrate-Fixed branch s =
      let g = s.worker.git in
      bind Fixed (lift (GitOps.fetch env g s.worker.remote)) _
        (lifts (GitOps.fetch env g s.worker.remote))
        (λ fetched.
          pick Fixed (is_ok fetched) _ _
            (bind Fixed (lift (GitOps.rebase_theirs env g s.worker.remote branch)) _
              (lifts (GitOps.rebase_theirs env g s.worker.remote branch))
              λ rebased.
                pick Fixed (not (is_ok rebased)) _ _
                  (seq Fixed (lift (GitOps.rebase_abort env g)) _
                    (lifts (GitOps.rebase_abort env g)) (λ u p. p))
                  (λ u p. p))
            (λ u p. p))
        s

  send-Fixed : (branch : Text) → Keeps Fixed (send env branch)
  unfolding send now
  send-Fixed branch s =
      bind Fixed (lift (GitOps.push env s.worker.git s.worker.remote branch)) _
        (lifts (GitOps.push env s.worker.git s.worker.remote branch))
        (λ pushed.
          pick Fixed (is_ok pushed) _ _
            (λ u p.
              pick Fixed (nonempty s.worker.heartbeat_url) (lift (ping env s.worker.heartbeat_url))
                (pure tt) (lifts (ping env s.worker.heartbeat_url)) (λ v q. q) _
                (configured u.worker u.worker.git false (env.monotonic u.trace) u.worker.degraded_rc
                  p))
            (λ u p. p))
        s

  maybe_push-Fixed : Keeps Fixed (maybe_push env)
  unfolding maybe_push push_once
  maybe_push-Fixed s p =
      elim (Bool-cases (not s.worker.unpushed || not (nonempty s.worker.remote))) [
        | inl e ↦ rw (e, maybe_push) p
        | inr e ↦
            rw (e, maybe_push)
              (handle Fixed (push_once env)
                (λ x. elim x [ timeout_expired ↦ pure tt | other ↦ log Host.push_cycle_failed ])
                (bind Fixed (resolve_branch env) _ resolve_branch-Fixed pushes) swallowed s p)
      ]
    where
      pushes :
          (branch : Option Text)
          → Keeps Fixed (elim branch as (λ b. M (Unit {0})) [
            | none ↦ log Host.no_branch
            | some b ↦ (do integrate env b; send env b)
          ])
      pushes none s p = p
      pushes (some b) s p =
          seq Fixed (integrate env b) (send env b) (integrate-Fixed b) (send-Fixed b) s p

      swallowed :
          (e : Exn)
          → Keeps Fixed (elim e as (λ x. M (Unit {0})) [
            | timeout_expired ↦ pure tt
            | other ↦ log Host.push_cycle_failed
          ])
      swallowed timeout_expired s p = p
      swallowed _ s p = p

  iteration-Fixed : (p : Poll) → Keeps Fixed (iteration env c p)
  unfolding iteration push_overdue now
  iteration-Fixed (arrived event) s p =
      seq Fixed (handle_event env c event) _ (handle_event-Kept P configured env c event)
        (bind Fixed (push_overdue env) (λ overdue. if overdue then maybe_push env else pure tt)
          (λ u p. p) (λ overdue. pick Fixed overdue _ _ maybe_push-Fixed (λ u p. p)))
        s p
  iteration-Fixed quiet s p = maybe_push-Fixed s p
  iteration-Fixed (broke e) s p = p

  pub run-Fixed : (ps : List Poll) → Keeps Fixed (run env c ps)
  unfolding run
  run-Fixed [] s p = p
  run-Fixed (q ∷ ps) s p =
      seq Fixed (iteration env c q) (run env c ps) (iteration-Fixed q) (run-Fixed ps) s p
