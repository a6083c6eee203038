-- ===== src/Push/Taken.antt =====
-- src/obsidian_git_sync/worker.py: a push cycle with a remote that takes what is pushed.
use obsidian_git_sync_mcp.Common.{
  ◌≡◌, refl, sym, subst, Bool, true, false, not, ◌||◌, List, [], ◌∷◌, ◌++◌, if◌then◌else◌,
  timeout_expired, value_error, os_error, import_error, other_error, Run, returned, raised, final,
  Returns, pure, ◌>>=◌, ◌>>◌, Bool-cases, inl, inr, false_ne,
}
use obsidian_git_sync_mcp.Common.Ends
use obsidian_git_sync_mcp.Common.Ends.{Ends}
use obsidian_git_sync_mcp.Common.Rules.{pick, Returns-bind, Returns-seq}
use obsidian_git_sync_mcp.Text.{Text, codes, nonempty}
use obsidian_git_sync_mcp.Host
use obsidian_git_sync_mcp.Host.{Env, Trace, GitResult, is_ok, exited, ran}
use obsidian_git_sync_mcp.GitOps
use obsidian_git_sync_mcp.GitOps.{GitOps, argv, credential_args}
use obsidian_git_sync_mcp.Heartbeat.{ping}
use obsidian_git_sync_mcp.History.{commands, verb, pushing, has_pending, ending}
use obsidian_git_sync_mcp.History.Verbs.{verb-push}
use obsidian_git_sync_mcp.History.Laws.{has_pending-pushed}
use obsidian_git_sync_mcp.History.Silent.{ping-Keeps}
use obsidian_git_sync_mcp.Worker.{State, M, lift, log}
use obsidian_git_sync_mcp.Worker.Lifted.{lift-Ends, lift_silent-Keeps}
use obsidian_git_sync_mcp.Worker.Tracking.{IsTracked}
use obsidian_git_sync_mcp.Worker.Committed.{run-exited}
use obsidian_git_sync_mcp.Push.{now, resolve_branch, integrate, send, push_once, maybe_push}
use obsidian_git_sync_mcp.Push.Attempts.{resolved}
use obsidian_git_sync_mcp.Common.Steps.{final-seq, bind-returned}

-- git exits from each command, with whatever code, and each push succeeds.
pub record TakesPushes (env : Env) : Type 0 where
  pub exits : (t : Trace) (line : List Text) → (r : GitResult) × (env.git t line ≡ exited r)
  pub takes :
      (t : Trace) (line : List Text)
      → verb line ≡ pushing
      → (r : GitResult) × ((env.git t line ≡ exited r) × (is_ok r ≡ true))

none_pending :
    (pending unpushed remote : Bool)
    → (pending ≡ true → unpushed ≡ true)
    → remote ≡ true
    → (not unpushed || not remote) ≡ true
    → pending ≡ false
none_pending false unpushed remote t r e = refl
none_pending true true true t r e = cc
none_pending true true false t r e = cc
none_pending true false remote t r e = absurd (false_ne (t refl))

module _ (env : Env) (healthy : TakesPushes env) where
  run-Returns : (g : GitOps) (args : List Text) (t : Trace) → Returns (GitOps.run env g args t)
  run-Returns g args t =
      let (r, e) = healthy.exits t (argv g args) in rw (run-exited env g args t r e) tt

  lift-Returns :
      {A : Type 0} (io : Host.Io A) (s : State) → Returns (io s.trace) → Returns (lift io s)
  lift-Returns {A} io s h = go (io s.trace) h
    where
      go :
          (r : Run Trace A)
          → Returns r
          → Returns {S = State} {A = A} (elim r [
            | returned a t ↦ returned a (record s { trace = t })
            | raised e t ↦ raised e (record s { trace = t })
          ])
      go (returned a t) h = tt
      go (raised e t) h = h

  undo-Returns :
      (g : GitOps) (bad : Bool) (l : Host.Log) (s : State)
      → Returns ((if bad then (do lift (GitOps.rebase_abort env g); log l) else pure tt) s)
  unfolding GitOps.rebase_abort
  undo-Returns g true l s =
      Returns-seq (lift (GitOps.rebase_abort env g)) (log l) s
        (lift-Returns (GitOps.rebase_abort env g) s (run-Returns g _ s.trace)) (λ u. tt)
  undo-Returns g false l s = tt

  integrate-Returns : (branch : Text) (s : State) → Returns (integrate env branch s)
  unfolding integrate GitOps.fetch GitOps.rebase_theirs
  integrate-Returns branch s =
      Returns-bind (lift (GitOps.fetch env g s.worker.remote)) _ s
        (lift-Returns (GitOps.fetch env g s.worker.remote) s (run-Returns g _ s.trace))
        (λ fetched u. rebases (is_ok fetched) u)
    where
      g : GitOps
      g = s.worker.git

      rebases :
          (fetched : Bool) (u : State)
          → Returns (
              (if fetched
                  then (do
                    rebased ← lift (GitOps.rebase_theirs env g s.worker.remote branch)
                    if not (is_ok rebased)
                        then (do
                          lift (GitOps.rebase_abort env g)
                          log (Host.rebase_failed s.worker.remote branch))
                        else pure tt)
                  else pure tt)
                u)
      rebases true u =
          Returns-bind (lift (GitOps.rebase_theirs env g s.worker.remote branch)) _ u
            (lift-Returns (GitOps.rebase_theirs env g s.worker.remote branch) u
              (run-Returns g _ u.trace))
            (λ rebased v. undo-Returns g (not (is_ok rebased)) _ v)
      rebases false u = tt

  abbrev pub Pushed : State → Type 0
  Pushed s = has_pending (commands s.trace) ≡ false

  -- A push is sent and succeeds, so nothing is pending behind it.
  push-Pushed :
      (g : GitOps) (remote branch : Text) (t : Trace)
      → Ends
          (λ r u. (is_ok r ≡ true) × (has_pending (commands u) ≡ false))
          (λ u. has_pending (commands u) ≡ false)
          (GitOps.push env g remote branch t)
  unfolding GitOps.push commands ending
  push-Pushed g remote branch t =
      let args = credential_args g ++ (codes "push" ∷ remote ∷ branch ∷ []) in
      let (r, (e, fine)) = healthy.takes t (argv g args) (verb-push g remote branch) in
      rw (run-exited env g args t r e) (
        fine,
        has_pending-pushed (record { line = argv g args; reply = exited r }) (commands t)
            (verb-push g remote branch) (rw fine refl),
      )

  send-Pushed : (branch : Text) (s : State) → Pushed (final (send env branch s))
  unfolding send now commands
  send-Pushed branch s = ended _ (
      Ends.bind Pushed (λ r u. (is_ok r ≡ true) × Pushed u) (λ a. Pushed) s
        (lift (GitOps.push env s.worker.git s.worker.remote branch)) _
        (lift-Ends (λ r u. (is_ok r ≡ true) × (has_pending (commands u) ≡ false))
          (λ u. has_pending (commands u) ≡ false)
          (GitOps.push env s.worker.git s.worker.remote branch) s
          (push-Pushed s.worker.git s.worker.remote branch s.trace))
        (λ r u (fine, pushed). rw fine (
          Ends.of_final Pushed _ (
            pick Pushed (nonempty s.worker.heartbeat_url) (lift (ping env s.worker.heartbeat_url))
              (pure tt)
              (lift_silent-Keeps (λ cs. has_pending cs ≡ false) (ping env s.worker.heartbeat_url)
                (λ h. ping-Keeps env h s.worker.heartbeat_url))
              (λ v p. p) _ pushed))))
    where
      ended : (r : Run State (Unit {0})) → Ends (λ a. Pushed) Pushed r → Pushed (final r)
      ended (returned a u) h = h
      ended (raised e u) h = h

  push_once-Pushed :
      (s : State) → nonempty s.worker.branch ≡ true → Pushed (final (push_once env s))
  unfolding push_once
  push_once-Pushed s branch =
      subst (λ r. Pushed (final r))
        (sym (bind-returned (resolve_branch env) _ (resolved env s branch)))
        (subst Pushed
          (sym (
            final-seq (integrate env s.worker.branch) (send env s.worker.branch) s
              (integrate-Returns s.worker.branch s)))
          (send-Pushed s.worker.branch (final (integrate env s.worker.branch s))))

  caught :
      (r : Run State (Unit {0}))
      → Pushed (final r)
      → Pushed (
          final {S = State} {A = Unit {0}} (elim r [
            | returned a u ↦ returned a u
            | raised x u ↦
                (elim x as (λ y. M (Unit {0})) [
                  | timeout_expired ↦ pure tt
                  | other ↦ log Host.push_cycle_failed
                ])
                  u
          ]))
  unfolding commands
  caught (returned a u) p = p
  caught (raised timeout_expired u) p = p
  caught (raised (value_error m) u) p = p
  caught (raised (os_error m detail) u) p = p
  caught (raised (import_error m) u) p = p
  caught (raised (other_error m detail) u) p = p

  pub maybe_push-Pushed :
      (s : State)
      → nonempty s.worker.remote ≡ true
      → nonempty s.worker.branch ≡ true
      → IsTracked s
      → Pushed (final (maybe_push env s))
  unfolding maybe_push
  maybe_push-Pushed s remote branch tracked =
      elim (Bool-cases (not s.worker.unpushed || not (nonempty s.worker.remote))) [
        | inl e ↦
            rw (e, maybe_push)
              (none_pending (has_pending (commands s.trace)) s.worker.unpushed
                (nonempty s.worker.remote) tracked remote e)
        | inr e ↦ rw (e, maybe_push) (caught (push_once env s) (push_once-Pushed s branch))
      ]
