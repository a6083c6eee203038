-- ===== src/Push/Sequence.antt =====
-- src/obsidian_git_sync/worker.py: the order of the commands in a push cycle.
use obsidian_git_sync_mcp.Common.{
  ◌≡◌, refl, ◌∙◌, ap, true, false, not, ◌||◌, Option, none, some, List, [], ◌∷◌, ◌++◌,
  if◌then◌else◌, Bool-cases, inl, inr, Exn, timeout_expired, Run, returned, raised, final, pure,
  ◌>>=◌, ◌>>◌,
}
use obsidian_git_sync_mcp.Common.Ends
use obsidian_git_sync_mcp.Common.Ends.{Ends}
use obsidian_git_sync_mcp.Text.{Text, codes, nonempty}
use obsidian_git_sync_mcp.Host
use obsidian_git_sync_mcp.Host.{Env, Io, Trace, GitResult, is_ok, read_clock}
use obsidian_git_sync_mcp.GitOps
use obsidian_git_sync_mcp.GitOps.{GitOps, argv}
use obsidian_git_sync_mcp.Heartbeat.{ping}
use obsidian_git_sync_mcp.History.{
  Command, commands, Verb, staging, inspecting, committing, fetching, rebasing, aborting, pushing,
  other,
}
use obsidian_git_sync_mcp.History.Laws.{commands-run}
use obsidian_git_sync_mcp.History.Silent.{ping-Keeps}
use obsidian_git_sync_mcp.History.Verbs.{
  verb-fetch, verb-rebase, verb-rebase_abort, verb-push, verb-current_branch,
}
use obsidian_git_sync_mcp.Worker.{Worker, State, M, lift, log}
use obsidian_git_sync_mcp.Push.{now, resolve_branch, integrate, send, push_once, maybe_push}
use obsidian_git_sync_mcp.Push.Grammar.{
  At, Cycle, cycle, ran_result, runs, may_follow, IsPush, CanEnd,
}

module _ (t : Trace) (env : Env) where
  abbrev Next : Verb → State → Type 0
  Next v s = (o : Option Verb) × (At t o s × (may_follow o v ≡ true))

  final-pure :
      {A B : Type 0} (r : Run Trace A) (f : A → B)
      → final {S = Trace} {A = B}
          (elim r [ returned a u ↦ returned (f a) u | raised e u ↦ raised e u ])
        ≡ final r
  final-pure (returned a u) f = refl
  final-pure (raised e u) f = refl

  weaken :
      {A : Type 0} (v w : Verb) (r : Run State A)
      → may_follow (some v) w ≡ true
      → Ends (λ a u. At t (some v) u) (Cycle t) r
      → Ends (λ a u. Next w u) (Cycle t) r
  weaken v w (returned a u) m h = (some v, (h, m))
  weaken v w (raised e u) m h = h

  resolve_branch-Next :
      (s : State) → At t none s → Ends (λ b u. Next fetching u) (Cycle t) (resolve_branch env s)
  unfolding resolve_branch GitOps.current_branch
  resolve_branch-Next s h = elim (Bool-cases (nonempty s.worker.branch)) [
    | inl e ↦ rw e (none, (h, refl))
    | inr e ↦ rw e (weaken other fetching _ refl asked)
  ]
    where
      g : GitOps
      g = s.worker.git

      asked : Ends (λ b u. At t (some other) u) (Cycle t) (lift (GitOps.current_branch env g) s)
      asked =
          ran_result t s.worker other none _ _ (GitOps.current_branch env g s.trace)
            (λ r. rw (verb-current_branch g) refl)
            (ap commands (
                final-pure
                  (GitOps.run env g (codes "rev-parse" ∷ codes "--abbrev-ref" ∷ codes "HEAD" ∷ [])
                    s.trace)
                  _)
              ∙ commands-run env g (codes "rev-parse" ∷ codes "--abbrev-ref" ∷ codes "HEAD" ∷ [])
                  s.trace)
            (verb-current_branch g) refl h

  integrate-Next :
      (branch : Text) (s : State)
      → Next fetching s
      → Ends (λ x u. Next pushing u) (Cycle t) (integrate env branch s)
  unfolding integrate GitOps.fetch GitOps.rebase_theirs GitOps.rebase_abort commands
  integrate-Next branch s (o, (h, m)) =
      Ends.bind (Cycle t) (λ r u. At t (some fetching) u) (λ x u. Next pushing u) s
        (lift (GitOps.fetch env g s.worker.remote)) _
        (runs t env g _ o fetching s (verb-fetch g s.worker.remote) m h) fetched
    where
      g : GitOps
      g = s.worker.git

      rebased :
          (r : GitResult) (u : State)
          → At t (some rebasing) u
          → Ends
              (λ x v. Next pushing v)
              (Cycle t)
              ((if not (is_ok r)
                  then (do
                    lift (GitOps.rebase_abort env g)
                    log (Host.rebase_failed s.worker.remote branch))
                  else pure tt)
                u)
      rebased r u k = elim (Bool-cases (is_ok r)) [
        | inl e ↦ rw e (some rebasing, (k, refl))
        | inr e ↦ rw e (
            Ends.seq (Cycle t) (λ x v. At t (some aborting) v) (λ x v. Next pushing v) u
              (lift (GitOps.rebase_abort env g)) (log (Host.rebase_failed s.worker.remote branch))
              (runs t env g _ (some rebasing) aborting u (verb-rebase_abort g) refl k)
              (λ x v l. (some aborting, (l, refl))))
      ]

      fetched :
          (r : GitResult) (u : State)
          → At t (some fetching) u
          → Ends
              (λ x v. Next pushing v)
              (Cycle t)
              ((if is_ok r
                  then (do
                    rebased ← lift (GitOps.rebase_theirs env g s.worker.remote branch)
                    if not (is_ok rebased)
                        then (do
                          lift (GitOps.rebase_abort env g)
                          log (Host.rebase_failed s.worker.remote branch))
                        else pure tt)
                  else pure tt)
                u)
      fetched r u k = elim (Bool-cases (is_ok r)) [
        | inl e ↦ rw e (
            Ends.bind (Cycle t) (λ x v. At t (some rebasing) v) (λ x v. Next pushing v) u
              (lift (GitOps.rebase_theirs env g s.worker.remote branch)) _
              (runs t env g _ (some fetching) rebasing u (verb-rebase g _) refl k) rebased)
        | inr e ↦ rw e (some fetching, (k, refl))
      ]

  silent :
      {A : Type 0} (w : Worker) (r : Run Trace A) (h : List Command)
      → commands (final r) ≡ h
      → ((new : List Command) × ((h ≡ new ++ commands t) × IsPush new))
      → Ends
          (λ a s. Cycle t s)
          (Cycle t)
          (elim r as (λ x. Run State A) [
            | returned a t ↦ returned a (record { worker = w; trace = t })
            | raised e t ↦ raised e (record { worker = w; trace = t })
          ])
  silent w (returned a u) h e (new, (f, k)) = (new, (e ∙ f, k))
  silent w (raised x u) h e (new, (f, k)) = (new, (e ∙ f, k))

  send-Cycle :
      (branch : Text) (s : State)
      → Next pushing s
      → Ends (λ x u. Cycle t u) (Cycle t) (send env branch s)
  unfolding send GitOps.push now commands
  send-Cycle branch s (o, (h, m)) =
      Ends.bind (Cycle t) (λ r u. At t (some pushing) u) (λ x u. Cycle t u) s
        (lift (GitOps.push env s.worker.git s.worker.remote branch)) _
        (runs t env s.worker.git _ o pushing s (verb-push s.worker.git s.worker.remote branch) m h)
        (λ r u k. elim (Bool-cases (is_ok r)) [
          | inl e ↦ rw e (elim (Bool-cases (nonempty s.worker.heartbeat_url)) [
            | inl f ↦ rw f (
                silent (record u.worker { unpushed = false; last_push = env.monotonic u.trace })
                  (ping env s.worker.heartbeat_url (read_clock ∷ u.trace)) (commands u.trace)
                  (ping-Keeps env (commands u.trace) s.worker.heartbeat_url (read_clock ∷ u.trace)
                    refl)
                  (cycle t (some pushing) u refl k))
            | inr f ↦ rw f (cycle t (some pushing) u refl k)
          ])
          | inr e ↦ rw e (cycle t (some pushing) u refl k)
        ])

  branch-Cycle :
      (branch : Option Text) (s : State)
      → Next fetching s
      → Ends
          (λ x u. Cycle t u)
          (Cycle t)
          ((elim branch as (λ b. M (Unit {0})) [
            | none ↦ log Host.no_branch
            | some b ↦ (do integrate env b; send env b)
          ])
            s)
  unfolding commands
  branch-Cycle none s (o, (h, m)) = cycle t o s (starts o m) h
    where
      starts : (o : Option Verb) → may_follow o fetching ≡ true → CanEnd o
      starts none e = tt
      starts (some staging) e = cc
      starts (some inspecting) e = cc
      starts (some committing) e = cc
      starts (some fetching) e = cc
      starts (some rebasing) e = cc
      starts (some aborting) e = cc
      starts (some pushing) e = refl
      starts (some other) e = refl
  branch-Cycle (some b) s h =
      Ends.seq (Cycle t) (λ x u. Next pushing u) (λ x u. Cycle t u) s (integrate env b) (send env b)
        (integrate-Next b s h) (λ x u k. send-Cycle b u k)

  swallowed :
      (e : Exn) (u : State)
      → Cycle t u
      → Ends
          (λ x v. Cycle t v)
          (Cycle t)
          ((elim e as (λ x. M (Unit {0})) [
            | timeout_expired ↦ pure tt
            | reason ↦ log Host.push_cycle_failed
          ])
            u)
  unfolding commands
  swallowed timeout_expired u h = h
  swallowed _ u h = h

module _ (env : Env) where
  ended :
      (t : Trace) (r : Run State (Unit {0}))
      → Ends (λ x u. Cycle t u) (Cycle t) r
      → Cycle t (final r)
  ended t (returned a u) h = h
  ended t (raised e u) h = h

  -- The commands that a push cycle runs, whatever git answers, are in their order: one other
  -- command (the question for the branch) or none; the fetch; then a rebase or none, and behind it
  -- an abort or none; and the push: or a beginning of that, behind whose last command the cycle may
  -- end only if it is the question for the branch or git did not exit from it; or nothing. So a
  -- push always follows an attempt to take in what the remote has.
  pub maybe_push-Cycle : (s : State) → Cycle s.trace (final (maybe_push env s))
  unfolding maybe_push push_once
  maybe_push-Cycle s = elim (Bool-cases (not s.worker.unpushed || not (nonempty s.worker.remote))) [
    | inl e ↦ rw (e, maybe_push) ([], (refl, (tt, tt)))
    | inr e ↦
        rw (e, maybe_push)
          (ended s.trace _ (
            Ends.handle (Cycle s.trace) (λ x u. Cycle s.trace u) (Cycle s.trace) s (push_once env)
              (λ x. elim x [ timeout_expired ↦ pure tt | reason ↦ log Host.push_cycle_failed ])
              (Ends.bind (Cycle s.trace) (λ b u. Next s.trace env fetching u)
                (λ x u. Cycle s.trace u) s (resolve_branch env) _
                (resolve_branch-Next s.trace env s ([], (refl, (tt, refl))))
                (branch-Cycle s.trace env))
              (swallowed s.trace env)))
  ]
