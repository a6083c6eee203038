-- ===== src/Push/Tracking.antt =====
-- src/obsidian_git_sync/worker.py: the mark of unpushed commits, through a push cycle.
use obsidian_git_sync_mcp.Common.{
  ◌≡◌, sym, ◌∙◌, Bool, true, false, not, ◌||◌, ◌&&◌, Option, none, some, List, [], ◌∷◌, ◌>>=◌, ◌>>◌,
  pure, if◌then◌else◌, Exn, timeout_expired, Run, returned, raised, final, Bool-cases, inl, inr,
  false_ne,
}
use obsidian_git_sync_mcp.Common.Rules.{Keeps, bind, seq, handle}
use obsidian_git_sync_mcp.Text.{Text, codes, nonempty, strip}
use obsidian_git_sync_mcp.History.Laws.{has_pending-cons, commands-run}
use obsidian_git_sync_mcp.Host
use obsidian_git_sync_mcp.Host.{Env, Io, Trace, is_ok, GitResult}
use obsidian_git_sync_mcp.GitOps
use obsidian_git_sync_mcp.GitOps.{GitOps}
use obsidian_git_sync_mcp.Heartbeat.{ping}
use obsidian_git_sync_mcp.History.{Command, commands, has_pending}
use obsidian_git_sync_mcp.History.Verbs.{
  verb-fetch, verb-rebase, verb-rebase_abort, verb-current_branch, fetching_ne, rebasing_ne,
  aborting_ne, other_ne,
}
use obsidian_git_sync_mcp.History.Silent.{ping-Keeps}
use obsidian_git_sync_mcp.Worker.{Worker, State, M, lift, log, modify}
use obsidian_git_sync_mcp.Worker.Tracking.{IsTracked, lift_silent, lift-run, lift-IsTracked}
use obsidian_git_sync_mcp.Push.{
  now, push_overdue, resolve_branch, integrate, send, push_once, maybe_push,
}
use obsidian_git_sync_mcp.Push.Laws.{PushOutcome, push-PushOutcome}

module _ (env : Env) where
  pub push_overdue-IsTracked : Keeps IsTracked (push_overdue env)
  unfolding push_overdue commands
  push_overdue-IsTracked s i = i

  current_branch-IsTracked : (g : GitOps) → Keeps IsTracked (lift (GitOps.current_branch env g))
  unfolding GitOps.current_branch
  current_branch-IsTracked g = lift-IsTracked (GitOps.current_branch env g) λ t.
      bind (λ u. has_pending (commands u) ≡ true → has_pending (commands t) ≡ true)
        (GitOps.run env g (codes "rev-parse" ∷ codes "--abbrev-ref" ∷ codes "HEAD" ∷ []))
        (λ r.
          let name = strip r.stdout in pure (if is_ok r && nonempty name then some name else none))
        (λ u k p. k (
          has_pending-cons _ (commands u) (λ v. other_ne (sym (verb-current_branch g) ∙ v))
            (rw commands-run at p)))
        (λ r u k. k) t (λ p. p)

  resolve_branch-IsTracked : Keeps IsTracked (resolve_branch env)
  unfolding resolve_branch
  resolve_branch-IsTracked s i = elim (Bool-cases (nonempty s.worker.branch)) [
    | inl e ↦ rw (e, resolve_branch) i
    | inr e ↦ rw (e, resolve_branch) (current_branch-IsTracked s.worker.git s i)
  ]

  fetch-IsTracked :
      (g : GitOps) (remote : Text) → Keeps IsTracked (lift (GitOps.fetch env g remote))
  unfolding GitOps.fetch
  fetch-IsTracked g remote = lift-run env g _ (λ v. fetching_ne (sym (verb-fetch g remote) ∙ v))

  rebase-IsTracked :
      (g : GitOps) (remote branch : Text)
      → Keeps IsTracked (lift (GitOps.rebase_theirs env g remote branch))
  unfolding GitOps.rebase_theirs
  rebase-IsTracked g remote branch = lift-run env g _ (λ v. rebasing_ne (sym (verb-rebase g _) ∙ v))

  abort-IsTracked : (g : GitOps) → Keeps IsTracked (lift (GitOps.rebase_abort env g))
  unfolding GitOps.rebase_abort
  abort-IsTracked g = lift-run env g _ (λ v. aborting_ne (sym (verb-rebase_abort g) ∙ v))

  undo-IsTracked :
      (w : Worker) (branch : Text) (bad : Bool)
      → Keeps IsTracked (
          if bad
          then (do lift (GitOps.rebase_abort env w.git); log (Host.rebase_failed w.remote branch))
          else pure tt)
  undo-IsTracked w branch true s i =
      seq IsTracked (lift (GitOps.rebase_abort env w.git))
        (log (Host.rebase_failed w.remote branch)) (abort-IsTracked w.git)
        (λ t j. unfold commands in j) s i
  undo-IsTracked w branch false s i = i

  rebase_part-IsTracked :
      (w : Worker) (branch : Text) (good : Bool)
      → Keeps IsTracked (
          if good
          then (do
            rebased ← lift (GitOps.rebase_theirs env w.git w.remote branch)
            if not (is_ok rebased)
                then (do
                  lift (GitOps.rebase_abort env w.git)
                  log (Host.rebase_failed w.remote branch))
                else pure tt)
          else pure tt)
  rebase_part-IsTracked w branch true s i =
      bind IsTracked (lift (GitOps.rebase_theirs env w.git w.remote branch))
        (λ rebased.
          if not (is_ok rebased)
          then (do lift (GitOps.rebase_abort env w.git); log (Host.rebase_failed w.remote branch))
          else pure tt)
        (rebase-IsTracked w.git w.remote branch) (λ r. undo-IsTracked w branch (not (is_ok r))) s i
  rebase_part-IsTracked w branch false s i = i

  integrate-IsTracked : (branch : Text) → Keeps IsTracked (integrate env branch)
  unfolding integrate
  integrate-IsTracked branch s =
      bind IsTracked (lift (GitOps.fetch env s.worker.git s.worker.remote))
        (λ fetched.
          if is_ok fetched
          then (do
            rebased ← lift (GitOps.rebase_theirs env s.worker.git s.worker.remote branch)
            if not (is_ok rebased)
                then (do
                  lift (GitOps.rebase_abort env s.worker.git)
                  log (Host.rebase_failed s.worker.remote branch))
                else pure tt)
          else pure tt)
        (fetch-IsTracked s.worker.git s.worker.remote)
        (λ r. rebase_part-IsTracked s.worker branch (is_ok r)) s

  ping-IsTracked :
      (wanted : Bool) (url : Text)
      → Keeps IsTracked (if wanted then lift (ping env url) else pure tt)
  ping-IsTracked true url s i = lift_silent (ping env url) (λ h. ping-Keeps env h url) s i
  ping-IsTracked false url s i = i

  -- The result of `push` on its way into the flag.
  send_result :
      (w : Worker) (cs : List Command) (r : Run Trace GitResult)
      → PushOutcome cs r
      → (has_pending cs ≡ true → w.unpushed ≡ true)
      → IsTracked (
          final {A = Unit {0}}
            (elim (elim r as (λ x. Run State GitResult) [
              | returned a t ↦ returned a (record { worker = w; trace = t })
              | raised e t ↦ raised e (record { worker = w; trace = t })
            ]) [
              | returned pushed s' ↦
                  (if is_ok pushed
                      then (do
                        modify (λ w. record w { unpushed = false })
                        at ← now env
                        modify (λ w. record w { last_push = at })
                        if nonempty w.heartbeat_url
                            then lift (ping env w.heartbeat_url)
                            else pure tt)
                      else log (Host.push_failed pushed.rc))
                    s'
              | raised e s' ↦ raised e s'
            ]))
  unfolding now commands
  send_result w cs (returned r t) (good, bad) k = elim (Bool-cases (is_ok r)) [
    | inl e ↦ rw e (
        ping-IsTracked (nonempty w.heartbeat_url) w.heartbeat_url _
          (λ p. absurd (false_ne (sym (good e) ∙ p))))
    | inr e ↦ rw e (λ p. k (bad (unfold commands in p)))
  ]
  send_result w cs (raised x t) c k = λ p. k (c p)

  send-IsTracked : (branch : Text) → Keeps IsTracked (send env branch)
  unfolding send
  send-IsTracked branch s i =
      send_result s.worker (commands s.trace)
        (GitOps.push env s.worker.git s.worker.remote branch s.trace)
        (push-PushOutcome env s.worker.git s.worker.remote branch s.trace) i

  branch-IsTracked :
      (branch : Option Text)
      → Keeps IsTracked (elim branch as (λ b. M (Unit {0})) [
        | none ↦ log Host.no_branch
        | some b ↦ (do integrate env b; send env b)
      ])
  unfolding commands
  branch-IsTracked none s i = i
  branch-IsTracked (some b) s i =
      seq IsTracked (integrate env b) (send env b) (integrate-IsTracked b) (send-IsTracked b) s i

  push_once-IsTracked : Keeps IsTracked (push_once env)
  unfolding push_once
  push_once-IsTracked =
      bind IsTracked (resolve_branch env) _ resolve_branch-IsTracked branch-IsTracked

  swallowed-IsTracked :
      (e : Exn)
      → Keeps IsTracked (elim e as (λ x. M (Unit {0})) [
        | timeout_expired ↦ pure tt
        | other ↦ log Host.push_cycle_failed
      ])
  unfolding commands
  swallowed-IsTracked timeout_expired s i = i
  swallowed-IsTracked _ s i = i

  pub maybe_push-IsTracked : Keeps IsTracked (maybe_push env)
  unfolding maybe_push
  maybe_push-IsTracked s i =
      elim (Bool-cases (not s.worker.unpushed || not (nonempty s.worker.remote))) [
        | inl e ↦ rw (e, maybe_push) i
        | inr e ↦
            rw (e, maybe_push)
              (handle IsTracked (push_once env)
                (λ x. elim x [ timeout_expired ↦ pure tt | other ↦ log Host.push_cycle_failed ])
                push_once-IsTracked swallowed-IsTracked s i)
      ]
