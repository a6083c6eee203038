-- ===== src/Push/Bounds.antt =====
-- src/obsidian_git_sync/worker.py: a push cycle, in git commands.
use obsidian_git_sync_mcp.Common.{
  false, not, ◌&&◌, ◌||◌, Option, none, some, [], ◌∷◌, arith, if◌then◌else◌, Bool-cases, inl, inr,
  Exn, timeout_expired, pure, ◌>>=◌, ◌>>◌,
}
use obsidian_git_sync_mcp.Common.Costs
use obsidian_git_sync_mcp.Common.Costs.{Costs}
use obsidian_git_sync_mcp.Text.{Text, codes, nonempty, strip}
use obsidian_git_sync_mcp.Host
use obsidian_git_sync_mcp.Host.{Env, GitResult, is_ok, read_clock}
use obsidian_git_sync_mcp.GitOps
use obsidian_git_sync_mcp.GitOps.{GitOps}
use obsidian_git_sync_mcp.Heartbeat.{ping}
use obsidian_git_sync_mcp.History.{commands}
use obsidian_git_sync_mcp.History.Silent.{ping-Keeps}
use obsidian_git_sync_mcp.Worker.{Worker, M, lift, log, modify}
use obsidian_git_sync_mcp.Worker.Spending.{
  asked, spent, run-Costs, lift-Costs, lift_silent-Costs, log-Costs,
}
use obsidian_git_sync_mcp.Push.{
  now, push_overdue, resolve_branch, integrate, send, push_once, maybe_push,
}

module _ (env : Env) where
  current_branch-Costs : (g : GitOps) → Costs asked 1 (GitOps.current_branch env g)
  unfolding GitOps.current_branch
  current_branch-Costs g =
      Costs.bind asked 1 0
        (GitOps.run env g (codes "rev-parse" ∷ codes "--abbrev-ref" ∷ codes "HEAD" ∷ []))
        (λ r.
          let name = strip r.stdout in pure (if is_ok r && nonempty name then some name else none))
        (run-Costs env g _) λ r t. omega arith

  resolve_branch-Costs : Costs spent 1 (resolve_branch env)
  unfolding resolve_branch
  resolve_branch-Costs s = elim (Bool-cases (nonempty s.worker.branch)) [
    | inl e ↦ rw e (omega arith)
    | inr e ↦ rw e (
        lift-Costs 1 (GitOps.current_branch env s.worker.git) (current_branch-Costs s.worker.git) s)
  ]

  -- The fetch, the rebase and its abort.
  integrate-Costs : (branch : Text) → Costs spent 3 (integrate env branch)
  unfolding integrate GitOps.fetch GitOps.rebase_theirs GitOps.rebase_abort
  integrate-Costs branch s =
      let g = s.worker.git in
      Costs.bind spent 1 2 (lift (GitOps.fetch env g s.worker.remote)) _
        (lift-Costs 1 (GitOps.fetch env g s.worker.remote) (run-Costs env g _))
        (λ fetched.
          Costs.branch spent 2 (is_ok fetched) _ _
            (Costs.bind spent 1 1 (lift (GitOps.rebase_theirs env g s.worker.remote branch)) _
              (lift-Costs 1 (GitOps.rebase_theirs env g s.worker.remote branch) (run-Costs env g _))
              (λ rebased.
                Costs.branch spent 1 (not (is_ok rebased)) _ _
                  (Costs.seq spent 1 0 (lift (GitOps.rebase_abort env g)) _
                    (lift-Costs 1 (GitOps.rebase_abort env g) (run-Costs env g _))
                    (log-Costs env (Host.rebase_failed s.worker.remote branch)))
                  (λ t. omega arith)))
            (λ t. omega arith))
        s

  sent-Costs :
      (w : Worker) (r : GitResult)
      → Costs spent 0 (
          if is_ok r
          then (do
            modify (λ w. record w { unpushed = false })
            at ← now env
            modify (λ w. record w { last_push = at })
            if nonempty w.heartbeat_url then lift (ping env w.heartbeat_url) else pure tt)
          else log (Host.push_failed r.rc))
  unfolding now commands
  sent-Costs w r s = elim (Bool-cases (is_ok r)) [
    | inl e ↦ rw e (elim (Bool-cases (nonempty w.heartbeat_url)) [
      | inl h ↦ rw h (
          omega (
            arith,
            lift_silent-Costs (ping env w.heartbeat_url) (λ x. ping-Keeps env x w.heartbeat_url)
                (record {
                  worker = record s.worker { unpushed = false; last_push = env.monotonic s.trace };
                  trace = read_clock ∷ s.trace;
                }),
          ))
      | inr h ↦ rw h (omega arith)
    ])
    | inr e ↦ rw e (omega arith)
  ]

  send-Costs : (branch : Text) → Costs spent 1 (send env branch)
  unfolding send GitOps.push
  send-Costs branch s =
      Costs.bind spent 1 0 (lift (GitOps.push env s.worker.git s.worker.remote branch)) _
        (lift-Costs 1 (GitOps.push env s.worker.git s.worker.remote branch)
          (run-Costs env s.worker.git _))
        (sent-Costs s.worker) s

  branch-Costs :
      (branch : Option Text)
      → Costs spent 4 (elim branch as (λ b. M (Unit {0})) [
        | none ↦ log Host.no_branch
        | some b ↦ (do integrate env b; send env b)
      ])
  branch-Costs none =
      Costs.weaken spent 0 4 (log Host.no_branch) (omega arith) (log-Costs env Host.no_branch)
  branch-Costs (some b) =
      Costs.seq spent 3 1 (integrate env b) (send env b) (integrate-Costs b) (send-Costs b)

  swallowed-Costs :
      (e : Exn)
      → Costs spent 0 (elim e as (λ x. M (Unit {0})) [
        | timeout_expired ↦ pure tt
        | other ↦ log Host.push_cycle_failed
      ])
  unfolding commands
  swallowed-Costs timeout_expired s = omega arith
  swallowed-Costs _ s = omega arith

  pub maybe_push-Costs : Costs spent 5 (maybe_push env)
  unfolding maybe_push push_once
  maybe_push-Costs s = elim (Bool-cases (not s.worker.unpushed || not (nonempty s.worker.remote))) [
    | inl e ↦ rw (e, maybe_push) (omega arith)
    | inr e ↦
        rw (e, maybe_push)
          (Costs.handle spent 5 0 (push_once env)
            (λ x. elim x [ timeout_expired ↦ pure tt | other ↦ log Host.push_cycle_failed ])
            (Costs.bind spent 1 4 (resolve_branch env) _ resolve_branch-Costs branch-Costs)
            swallowed-Costs s)
  ]

  pub push_overdue-Costs : Costs spent 0 (push_overdue env)
  unfolding push_overdue now commands
  push_overdue-Costs s = omega arith
