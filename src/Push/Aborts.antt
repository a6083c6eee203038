-- ===== src/Push/Aborts.antt =====
-- src/obsidian_git_sync/worker.py: rebases and their aborts, through a push cycle.
use obsidian_git_sync_mcp.Common.{
  ◌≢◌, refl, sym, ◌∙◌, Bool, true, false, not, ◌||◌, ◌&&◌, Option, none, some, List, [], ◌∷◌, ◌>>=◌,
  ◌>>◌, pure, if◌then◌else◌, Exn, timeout_expired, Run, returned, raised, final, Bool-cases, inl,
  inr,
}
use obsidian_git_sync_mcp.Common.Rules.{Keeps, bind, seq, handle}
use obsidian_git_sync_mcp.Text.{Text, codes, nonempty, strip}
use obsidian_git_sync_mcp.Host
use obsidian_git_sync_mcp.Host.{
  Env, Io, Trace, Reply, exited, timed_out, failed, is_ok, GitResult, ran, logged, git_timed_out,
}
use obsidian_git_sync_mcp.GitOps
use obsidian_git_sync_mcp.GitOps.{GitOps, argv}
use obsidian_git_sync_mcp.Heartbeat.{ping}
use obsidian_git_sync_mcp.History.{commands, fetching, rebasing, pushing, other, verb, IsSettled}
use obsidian_git_sync_mcp.History.Verbs.{verb-fetch, verb-current_branch, verb-push}
use obsidian_git_sync_mcp.History.Laws.{commands-run}
use obsidian_git_sync_mcp.History.Silent.{ping-Keeps}
use obsidian_git_sync_mcp.Worker.{Worker, State, M, lift, log, modify}
use obsidian_git_sync_mcp.Push.{now, resolve_branch, integrate, send, push_once, maybe_push}
use obsidian_git_sync_mcp.Push.Settled.{
  Settled, settle, lift_result, Settled-run, Settled-abort, RebaseOutcome, rebase-RebaseOutcome,
}

fetching_ne : fetching ≢ rebasing
fetching_ne e = cc

pushing_ne : pushing ≢ rebasing
pushing_ne e = cc

other_ne : other ≢ rebasing
other_ne e = cc

module _ (env : Env) where
  undo-Settled :
      (w v : Worker) (branch : Text) (r : Run Trace GitResult)
      → RebaseOutcome r
      → Settled (
          final {A = Unit {0}}
            (elim (elim r as (λ x. Run State GitResult) [
              | returned a t ↦ returned a (record { worker = v; trace = t })
              | raised e t ↦ raised e (record { worker = v; trace = t })
            ]) [
              | returned rebased s ↦
                  (if not (is_ok rebased)
                      then (do
                        lift (GitOps.rebase_abort env w.git)
                        log (Host.rebase_failed w.remote branch))
                      else pure tt)
                    s
              | raised e s ↦ raised e s
            ]))
  undo-Settled w v branch (returned r t) (good, h) = elim (Bool-cases (is_ok r)) [
    | inl e ↦ rw e (good e)
    | inr e ↦
        rw e (abort_then_log (GitOps.rebase_abort env w.git t) (Settled-abort env w.git v t h))
  ]
    where
      abort_then_log :
          (a : Run Trace GitResult)
          → Settled (
              final {A = GitResult} (elim a [
                | returned x u ↦ returned x (record { worker = v; trace = u })
                | raised x u ↦ raised x (record { worker = v; trace = u })
              ]))
          → Settled (
              final {A = Unit {0}}
                (elim (elim a as (λ x. Run State GitResult) [
                  | returned x u ↦ returned x (record { worker = v; trace = u })
                  | raised x u ↦ raised x (record { worker = v; trace = u })
                ]) [
                  | returned x u ↦ log (Host.rebase_failed w.remote branch) u
                  | raised x u ↦ raised x u
                ]))
      abort_then_log (returned x u) k = unfold commands in k
      abort_then_log (raised x u) k = k
  undo-Settled w v branch (raised e t) h = h

  rebase-Settled :
      (w : Worker) (branch : Text) (good : Bool)
      → Keeps Settled (
          if good
          then (do
            rebased ← lift (GitOps.rebase_theirs env w.git w.remote branch)
            if not (is_ok rebased)
                then (do
                  lift (GitOps.rebase_abort env w.git)
                  log (Host.rebase_failed w.remote branch))
                else pure tt)
          else pure tt)
  rebase-Settled w branch true s i =
      undo-Settled w s.worker branch (GitOps.rebase_theirs env w.git w.remote branch s.trace)
        (rebase-RebaseOutcome env w.git w.remote branch s.trace i)
  rebase-Settled w branch false s i = i

  fetch-Settled : (g : GitOps) (remote : Text) → Keeps Settled (lift (GitOps.fetch env g remote))
  unfolding GitOps.fetch
  fetch-Settled g remote = Settled-run env g _ (λ v. fetching_ne (sym (verb-fetch g remote) ∙ v))

  integrate-Settled : (branch : Text) → Keeps Settled (integrate env branch)
  unfolding integrate
  integrate-Settled branch s =
      bind Settled (lift (GitOps.fetch env s.worker.git s.worker.remote))
        (λ fetched.
          if is_ok fetched
          then (do
            rebased ← lift (GitOps.rebase_theirs env s.worker.git s.worker.remote branch)
            if not (is_ok rebased)
                then (do
                  lift (GitOps.rebase_abort env s.worker.git)
                  log (Host.rebase_failed s.worker.remote branch))
                else pure tt)
          else pure tt)
        (fetch-Settled s.worker.git s.worker.remote) (λ r. rebase-Settled s.worker branch (is_ok r))
        s

  push-Settled :
      (g : GitOps) (remote branch : Text) → Keeps Settled (lift (GitOps.push env g remote branch))
  unfolding GitOps.push
  push-Settled g remote branch =
      Settled-run env g _ (λ v. pushing_ne (sym (verb-push g remote branch) ∙ v))

  ping-Settled : (url : Text) → Keeps Settled (lift (ping env url))
  ping-Settled url s i =
      lift_result s.worker (ping env url s.trace) (commands s.trace)
        (ping-Keeps env (commands s.trace) url s.trace refl) i

  sent-Settled :
      (w : Worker) (r : GitResult)
      → Keeps Settled (
          if is_ok r
          then (do
            modify (λ w. record w { unpushed = false })
            at ← now env
            modify (λ w. record w { last_push = at })
            if nonempty w.heartbeat_url then lift (ping env w.heartbeat_url) else pure tt)
          else log (Host.push_failed r.rc))
  unfolding now commands
  sent-Settled w r s i = elim (Bool-cases (is_ok r)) [
    | inl e ↦ rw e (elim (Bool-cases (nonempty w.heartbeat_url)) [
      | inl h ↦ rw h (ping-Settled w.heartbeat_url _ i)
      | inr h ↦ rw h i
    ])
    | inr e ↦ rw e i
  ]

  send-Settled : (branch : Text) → Keeps Settled (send env branch)
  unfolding send
  send-Settled branch s =
      bind Settled (lift (GitOps.push env s.worker.git s.worker.remote branch)) _
        (push-Settled s.worker.git s.worker.remote branch) (sent-Settled s.worker) s

  run_settles :
      (g : GitOps) (args : List Text)
      → verb (argv g args) ≢ rebasing
      → Keeps (λ t. IsSettled (commands t)) (GitOps.run env g args)
  run_settles g args h t i = rw commands-run (settle _ (commands t) h i)

  current_branch-Settled : (g : GitOps) → Keeps Settled (lift (GitOps.current_branch env g))
  unfolding GitOps.current_branch
  current_branch-Settled g s i = lift_result s.worker (GitOps.current_branch env g s.trace) _ refl (
      bind (λ t. IsSettled (commands t))
        (GitOps.run env g (codes "rev-parse" ∷ codes "--abbrev-ref" ∷ codes "HEAD" ∷ []))
        (λ r.
          let name = strip r.stdout in pure (if is_ok r && nonempty name then some name else none))
        (run_settles g _ (λ v. other_ne (sym (verb-current_branch g) ∙ v))) (λ r t j. j) s.trace i)

  resolve_branch-Settled : Keeps Settled (resolve_branch env)
  unfolding resolve_branch
  resolve_branch-Settled s i = elim (Bool-cases (nonempty s.worker.branch)) [
    | inl e ↦ rw (e, resolve_branch) i
    | inr e ↦ rw (e, resolve_branch) (current_branch-Settled s.worker.git s i)
  ]

  branch-Settled :
      (branch : Option Text)
      → Keeps Settled (elim branch as (λ b. M (Unit {0})) [
        | none ↦ log Host.no_branch
        | some b ↦ (do integrate env b; send env b)
      ])
  unfolding commands
  branch-Settled none s i = i
  branch-Settled (some b) s i =
      seq Settled (integrate env b) (send env b) (integrate-Settled b) (send-Settled b) s i

  swallowed-Settled :
      (e : Exn)
      → Keeps Settled (elim e as (λ x. M (Unit {0})) [
        | timeout_expired ↦ pure tt
        | reason ↦ log Host.push_cycle_failed
      ])
  unfolding commands
  swallowed-Settled timeout_expired s i = i
  swallowed-Settled _ s i = i

  -- If so far each rebase that git ended with an error was directly followed by `rebase --abort`, then
  -- so it is after a push cycle, whatever git answers and whatever raises: none is left open.
  pub maybe_push-IsSettled :
      (s : State)
      → IsSettled (commands s.trace)
      → IsSettled (commands (final (maybe_push env s)).trace)
  unfolding maybe_push push_once
  maybe_push-IsSettled s i =
      elim (Bool-cases (not s.worker.unpushed || not (nonempty s.worker.remote))) [
        | inl e ↦ rw (e, maybe_push) i
        | inr e ↦
            rw (e, maybe_push)
              (handle Settled (push_once env)
                (λ x. elim x [ timeout_expired ↦ pure tt | reason ↦ log Host.push_cycle_failed ])
                (bind Settled (resolve_branch env) _ resolve_branch-Settled branch-Settled)
                swallowed-Settled s i)
      ]
