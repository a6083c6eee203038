-- ===== src/Push/Commitless.antt =====
-- src/obsidian_git_sync/worker.py: a push cycle commits nothing.
use obsidian_git_sync_mcp.Common.{
  sym, ◌∙◌, false, not, ◌&&◌, ◌||◌, Option, none, some, [], ◌∷◌, if◌then◌else◌, Bool-cases, inl,
  inr, Exn, timeout_expired, pure, ◌>>=◌, ◌>>◌,
}
use obsidian_git_sync_mcp.Common.Rules.{Keeps, bind, seq, handle, pick}
use obsidian_git_sync_mcp.Text.{Text, codes, nonempty, strip}
use obsidian_git_sync_mcp.Host
use obsidian_git_sync_mcp.Host.{Env, Trace, GitResult, is_ok, read_clock}
use obsidian_git_sync_mcp.GitOps
use obsidian_git_sync_mcp.GitOps.{GitOps}
use obsidian_git_sync_mcp.Heartbeat.{ping}
use obsidian_git_sync_mcp.History.{commands}
use obsidian_git_sync_mcp.History.Silent.{ping-Keeps}
use obsidian_git_sync_mcp.History.Staged.{IsStaged, run-IsStaged, silent-IsStaged, lift-IsStaged}
use obsidian_git_sync_mcp.History.Verbs.{
  verb-fetch, verb-rebase, verb-rebase_abort, verb-push, verb-current_branch, pushing_ne,
  fetching_ne, rebasing_ne, aborting_ne, other_ne,
}
use obsidian_git_sync_mcp.Worker.{Worker, State, M, lift, log, modify}
use obsidian_git_sync_mcp.Push.{
  now, push_overdue, resolve_branch, integrate, send, push_once, maybe_push,
}

abbrev pub Staged : State → Type 0
Staged s = IsStaged s.trace

pub log-Staged : (l : Host.Log) → Keeps Staged (log l)
unfolding commands
log-Staged l s i = i

module _ (env : Env) where
  resolve_branch-Staged : Keeps Staged (resolve_branch env)
  unfolding resolve_branch GitOps.current_branch
  resolve_branch-Staged s i = elim (Bool-cases (nonempty s.worker.branch)) [
    | inl e ↦ rw e i
    | inr e ↦ rw e (lift-IsStaged (GitOps.current_branch env s.worker.git) (asked s.worker.git) s i)
  ]
    where
      asked : (g : GitOps) → Keeps IsStaged (GitOps.current_branch env g)
      asked g =
          bind IsStaged
            (GitOps.run env g (codes "rev-parse" ∷ codes "--abbrev-ref" ∷ codes "HEAD" ∷ []))
            (λ r.
              let name = strip r.stdout in
              pure (if is_ok r && nonempty name then some name else none))
            (run-IsStaged env g _ (λ v. other_ne (sym (verb-current_branch g) ∙ v))) λ r t j. j

  integrate-Staged : (branch : Text) → Keeps Staged (integrate env branch)
  unfolding integrate GitOps.fetch GitOps.rebase_theirs GitOps.rebase_abort
  integrate-Staged branch s =
      let g = s.worker.git in
      bind Staged (lift (GitOps.fetch env g s.worker.remote)) _
        (lift-IsStaged (GitOps.fetch env g s.worker.remote)
          (run-IsStaged env g _ (λ v. fetching_ne (sym (verb-fetch g s.worker.remote) ∙ v))))
        (λ fetched.
          pick Staged (is_ok fetched) _ _
            (bind Staged (lift (GitOps.rebase_theirs env g s.worker.remote branch)) _
              (lift-IsStaged (GitOps.rebase_theirs env g s.worker.remote branch)
                (run-IsStaged env g _ (λ v. rebasing_ne (sym (verb-rebase g _) ∙ v))))
              (λ rebased.
                pick Staged (not (is_ok rebased)) _ _
                  (seq Staged (lift (GitOps.rebase_abort env g)) _
                    (lift-IsStaged (GitOps.rebase_abort env g)
                      (run-IsStaged env g _ (λ v. aborting_ne (sym (verb-rebase_abort g) ∙ v))))
                    (log-Staged (Host.rebase_failed s.worker.remote branch)))
                  (λ t i. i)))
            (λ t i. i))
        s

  sent-Staged :
      (w : Worker) (r : GitResult)
      → Keeps Staged (
          if is_ok r
          then (do
            modify (λ w. record w { unpushed = false })
            at ← now env
            modify (λ w. record w { last_push = at })
            if nonempty w.heartbeat_url then lift (ping env w.heartbeat_url) else pure tt)
          else log (Host.push_failed r.rc))
  unfolding now commands
  sent-Staged w r s i = elim (Bool-cases (is_ok r)) [
    | inl e ↦ rw e (elim (Bool-cases (nonempty w.heartbeat_url)) [
      | inl h ↦ rw h (
          lift-IsStaged (ping env w.heartbeat_url)
            (silent-IsStaged (ping env w.heartbeat_url) (λ x. ping-Keeps env x w.heartbeat_url))
            (record {
              worker = record s.worker { unpushed = false; last_push = env.monotonic s.trace };
              trace = read_clock ∷ s.trace;
            })
            i)
      | inr h ↦ rw h i
    ])
    | inr e ↦ rw e i
  ]

  send-Staged : (branch : Text) → Keeps Staged (send env branch)
  unfolding send GitOps.push
  send-Staged branch s =
      bind Staged (lift (GitOps.push env s.worker.git s.worker.remote branch)) _
        (lift-IsStaged (GitOps.push env s.worker.git s.worker.remote branch) (
          run-IsStaged env s.worker.git _
            (λ v. pushing_ne (sym (verb-push s.worker.git s.worker.remote branch) ∙ v))))
        (sent-Staged s.worker) s

  branch-Staged :
      (branch : Option Text)
      → Keeps Staged (elim branch as (λ b. M (Unit {0})) [
        | none ↦ log Host.no_branch
        | some b ↦ (do integrate env b; send env b)
      ])
  branch-Staged none s i = log-Staged Host.no_branch s i
  branch-Staged (some b) s i =
      seq Staged (integrate env b) (send env b) (integrate-Staged b) (send-Staged b) s i

  swallowed-Staged :
      (e : Exn)
      → Keeps Staged (elim e as (λ x. M (Unit {0})) [
        | timeout_expired ↦ pure tt
        | other ↦ log Host.push_cycle_failed
      ])
  unfolding commands
  swallowed-Staged timeout_expired s i = i
  swallowed-Staged _ s i = i

  pub maybe_push-Staged : Keeps Staged (maybe_push env)
  unfolding maybe_push push_once
  maybe_push-Staged s i =
      elim (Bool-cases (not s.worker.unpushed || not (nonempty s.worker.remote))) [
        | inl e ↦ rw (e, maybe_push) i
        | inr e ↦
            rw (e, maybe_push)
              (handle Staged (push_once env)
                (λ x. elim x [ timeout_expired ↦ pure tt | other ↦ log Host.push_cycle_failed ])
                (bind Staged (resolve_branch env) _ resolve_branch-Staged branch-Staged)
                swallowed-Staged s i)
      ]

  pub push_overdue-Staged : Keeps Staged (push_overdue env)
  unfolding push_overdue now commands
  push_overdue-Staged s i = i
