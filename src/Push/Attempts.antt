-- ===== src/Push/Attempts.antt =====
-- src/obsidian_git_sync/worker.py: when a push is attempted.
use obsidian_git_sync_mcp.Common.{
  ◌≡◌, refl, sym, subst, ap, ◌∙◌, Bool, true, false, not, ◌||◌, some, List, [], ◌∷◌, ◌++◌,
  if◌then◌else◌, Exn, timeout_expired, Run, returned, raised, final, pure, ◌>>=◌, ◌>>◌,
}
use obsidian_git_sync_mcp.Common.Ends
use obsidian_git_sync_mcp.Common.Ends.{Ends}
use obsidian_git_sync_mcp.Common.Rules.{Keeps, bind, seq, pick}
use obsidian_git_sync_mcp.Common.Steps.{bind-returned}
use obsidian_git_sync_mcp.Text.{Text, codes, nonempty}
use obsidian_git_sync_mcp.Host
use obsidian_git_sync_mcp.Host.{Env, Trace, is_ok}
use obsidian_git_sync_mcp.GitOps
use obsidian_git_sync_mcp.GitOps.{GitOps, argv, credential_args}
use obsidian_git_sync_mcp.Heartbeat.{ping}
use obsidian_git_sync_mcp.History.{Command, commands}
use obsidian_git_sync_mcp.History.Laws.{commands-run}
use obsidian_git_sync_mcp.History.Silent.{ping-Keeps}
use obsidian_git_sync_mcp.Worker.{Worker, State, M, lift, log}
use obsidian_git_sync_mcp.Worker.Lifted.{lift-Keeps, lift_silent-Keeps}
use obsidian_git_sync_mcp.Push.{now, resolve_branch, integrate, send, push_once, maybe_push}

-- The history goes on from `h`.
abbrev pub Onward : List Command → State → Type 0
Onward h s = (new : List Command) × (commands s.trace ≡ new ++ h)

-- A configured remote and branch, and a commit to push.
abbrev pub IsDue : Worker → Type 0
IsDue w = (w.unpushed ≡ true) × ((nonempty w.remote ≡ true) × (nonempty w.branch ≡ true))

not_idle :
    (unpushed remote : Bool)
    → unpushed ≡ true
    → remote ≡ true
    → (not unpushed || not remote) ≡ false
not_idle true true u r = refl
not_idle true false u r = cc
not_idle false remote u r = cc

lift_final :
    {A : Type 0} {h : List Command} (io : Host.Io A) (s : State)
    → (new : List Command) × (commands (final (io s.trace)) ≡ new ++ h)
    → Onward h (final (lift io s))
lift_final {A} {h} io s = go (io s.trace)
  where
    go :
        (r : Run Trace A)
        → (new : List Command) × (commands (final r) ≡ new ++ h)
        → Onward h (
            final {S = State} {A = A} (elim r [
              | returned a t ↦ returned a (record s { trace = t })
              | raised e t ↦ raised e (record s { trace = t })
            ]))
    go (returned a t) o = o
    go (raised e t) o = o

module _ (env : Env) where
  -- The first command of a push cycle from `s`, with git's answer.
  abbrev pub first_fetch : State → Command
  first_fetch s =
      let line =
        argv s.worker.git
          (credential_args s.worker.git ++ (codes "fetch" ∷ s.worker.remote ∷ [])) in
      record { line = line; reply = env.git s.trace line }

  module _ (h : List Command) where
    runs : (g : GitOps) (args : List Text) → Keeps (Onward h) (lift (GitOps.run env g args))
    runs g args =
        lift-Keeps (λ t. (new : List Command) × (commands t ≡ new ++ h)) (GitOps.run env g args)
          (λ t (new, e).
            let asked : Command = record { line = argv g args; reply = env.git t (argv g args) } in
            (asked ∷ new, commands-run env g args t ∙ ap (λ cs. asked ∷ cs) e))

    logs : (l : Host.Log) → Keeps (Onward h) (log l)
    unfolding commands
    logs l s o = o

    rebases :
        (g : GitOps) (remote branch : Text) (fetched : Bool)
        → Keeps (Onward h) (
            if fetched
            then (do
              rebased ← lift (GitOps.rebase_theirs env g remote branch)
              if not (is_ok rebased)
                  then (do lift (GitOps.rebase_abort env g); log (Host.rebase_failed remote branch))
                  else pure tt)
            else pure tt)
    unfolding GitOps.rebase_theirs GitOps.rebase_abort
    rebases g remote branch fetched =
        pick (Onward h) fetched _ (pure tt)
          (bind (Onward h) (lift (GitOps.rebase_theirs env g remote branch)) _ (runs g _) λ rebased.
            pick (Onward h) (not (is_ok rebased)) _ (pure tt)
              (seq (Onward h) (lift (GitOps.rebase_abort env g)) _ (runs g _)
                (logs (Host.rebase_failed remote branch)))
              (λ s o. o))
          (λ s o. o)

    send-Onward : (branch : Text) → Keeps (Onward h) (send env branch)
    unfolding send now GitOps.push commands
    send-Onward branch s =
        bind (Onward h) (lift (GitOps.push env s.worker.git s.worker.remote branch)) _
          (runs s.worker.git _)
          (λ pushed.
            pick (Onward h) (is_ok pushed) _ (log (Host.push_failed pushed.rc))
              (λ u o.
                pick (Onward h) (nonempty s.worker.heartbeat_url)
                  (lift (ping env s.worker.heartbeat_url)) (pure tt)
                  (lift_silent-Keeps (λ cs. (new : List Command) × (cs ≡ new ++ h))
                    (ping env s.worker.heartbeat_url)
                    (λ k. ping-Keeps env k s.worker.heartbeat_url))
                  (λ v p. p) _ o)
              (λ u o. o))
          s

    ended : (r : Run State (Unit {0})) → Ends (λ a. Onward h) (Onward h) r → Onward h (final r)
    ended (returned a u) o = o
    ended (raised x u) o = o

    swallows :
        (x : Exn)
        → Keeps (Onward h) (elim x as (λ y. M (Unit {0})) [
          | timeout_expired ↦ pure tt
          | other ↦ log Host.push_cycle_failed
        ])
    unfolding commands
    swallows timeout_expired s o = o
    swallows _ s o = o

  -- The cycle from its fetch on.
  fetches :
      (branch : Text) (s : State)
      → let h = first_fetch s ∷ commands s.trace in
        Ends (λ a. Onward h) (Onward h) ((integrate env branch >> send env branch) s)
  unfolding integrate GitOps.fetch
  fetches branch s =
      Ends.seq (Onward h) (λ a. Onward h) (λ a. Onward h) s (integrate env branch) (send env branch)
        (Ends.bind (Onward h) (λ r. Onward h) (λ a. Onward h) s
          (lift (GitOps.fetch env g s.worker.remote)) _
          (Ends.of_final (Onward h) (lift (GitOps.fetch env g s.worker.remote) s)
            (lift_final (GitOps.fetch env g s.worker.remote) s ([], commands-run env g _ s.trace)))
          (λ r u o. Ends.of_final (Onward h) _ (rebases h g s.worker.remote branch (is_ok r) u o)))
        (λ a u o. Ends.of_final (Onward h) (send env branch u) (send-Onward h branch u o))
    where
      g : GitOps
      g = s.worker.git

      h : List Command
      h = first_fetch s ∷ commands s.trace

  pub resolved :
      (s : State)
      → nonempty s.worker.branch ≡ true
      → resolve_branch env s ≡ returned (some s.worker.branch) s
  unfolding resolve_branch
  resolved s branch = rw (branch, resolve_branch)

  pub maybe_push-attempts :
      (s : State)
      → IsDue s.worker
      → Onward (first_fetch s ∷ commands s.trace) (final (maybe_push env s))
  unfolding maybe_push push_once
  maybe_push-attempts s (unpushed, (remote, branch)) =
      let h = first_fetch s ∷ commands s.trace in
      rw (not_idle s.worker.unpushed (nonempty s.worker.remote) unpushed remote, maybe_push)
        (ended h _ (
          Ends.handle (Onward h) (λ a. Onward h) (Onward h) s (push_once env)
            (λ x. elim x [ timeout_expired ↦ pure tt | other ↦ log Host.push_cycle_failed ])
            (subst (Ends (λ a. Onward h) (Onward h))
              (sym (bind-returned (resolve_branch env) _ (resolved s branch)))
              (fetches s.worker.branch s))
            (λ x u o. Ends.of_final (Onward h) _ (swallows h x u o))))
