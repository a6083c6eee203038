-- ===== src/Worker/Written.antt =====
-- src/obsidian_git_sync/worker.py: the work on an event whose changes git finds.
use obsidian_git_sync_mcp.Common.{
  arith, ◌≡◌, ◌≢◌, ◌>>◌, refl, sym, subst, ap, ◌∙◌, Bool, true, false, some, List, [], ◌∷◌, ◌++◌,
  map, if◌then◌else◌, Run, returned, raised, final, pure,
}
use obsidian_git_sync_mcp.Common.Ends
use obsidian_git_sync_mcp.Common.Ends.{Ends}
use obsidian_git_sync_mcp.Text.{Text, codes, text_eq}
use obsidian_git_sync_mcp.FilePath.{child_text}
use obsidian_git_sync_mcp.Host
use obsidian_git_sync_mcp.Host.{Env, Io, Trace, Code, logged}
use obsidian_git_sync_mcp.GitOps
use obsidian_git_sync_mcp.GitOps.{GitOps, argv, identity_args}
use obsidian_git_sync_mcp.History.{Command, commands, verb, staging}
use obsidian_git_sync_mcp.History.Verbs.{verb-add, verb-add_all}
use obsidian_git_sync_mcp.History.Silent.{stamp_paths-Keeps}
use obsidian_git_sync_mcp.Config.{Settings}
use obsidian_git_sync_mcp.Events.{SyncEvent, mcp_write, mcp_write_kind, sync_sweep, sync_sweep_kind}
use obsidian_git_sync_mcp.Stamping.{stamp_paths, now_utc, strftime}
use obsidian_git_sync_mcp.Worker.{
  State, M, lift, log, degraded, record_clean, wants_stamp, stamp_event, handle_mcp_write,
  handle_sync_sweep, sweep_message, mcp_message, dispatch, handle_event, stage_and_commit,
}
use obsidian_git_sync_mcp.Worker.Committed.{Commits, stage_and_commit-made}

-- The argument lists of the commands, the newest first.
abbrev pub lines : State → List (List Text)
lines s = map (λ (c : Command). c.line) (commands s.trace)

abbrev pub add_paths : List Text → List Text
add_paths paths = codes "add" ∷ codes "-A" ∷ codes "--" ∷ paths

abbrev pub add_all_args : List Text
add_all_args = codes "add" ∷ codes "-A" ∷ []

-- The message of a sweep that begins at `s`.
abbrev pub sweep_text : Env → State → Text
sweep_text env s = codes "sync: auto " ++ strftime (env.utc_now s.trace)

-- The staging, the comparison twice, and the commit behind some commands.
abbrev pub committed : GitOps → List Text → Text → List (List Text) → List (List Text)
committed g args message before =
    let diff = argv g (codes "diff" ∷ codes "--cached" ∷ codes "--quiet" ∷ []) in
    argv g (identity_args g ++ (codes "commit" ∷ codes "-m" ∷ message ∷ []))
    ∷ diff
    ∷ diff
    ∷ argv g args
    ∷ before

-- Behind `s` come these four commands and no other; the worker has unpushed commits, and is not
-- degraded.
abbrev pub IsCommitted : State → List Text → Text → State → Type 0
IsCommitted s args message u =
    (lines u ≡ committed s.worker.git args message (lines s))
    × ((u.worker.unpushed ≡ true) × (degraded u.worker ≡ false))

-- The same worker, and no command more.
abbrev IsSilent : State → State → Type 0
IsSilent s u = (u.worker ≡ s.worker) × (commands u.trace ≡ commands s.trace)

module _ (env : Env) where
  record_clean-cleans :
      (s : State)
      → s.worker.unpushed ≡ true
      → Ends
          (λ a u. (lines u ≡ lines s) × ((u.worker.unpushed ≡ true) × (degraded u.worker ≡ false)))
          (λ u. ⊥)
          (record_clean env s)
  unfolding record_clean degraded commands
  record_clean-cleans s e = ground (arith, e)

  module _ (well : Commits env) where
    stage_and_commit-IsCommitted :
        (label message : Text) (args : List Text)
        → ((g : GitOps) → verb (argv g args) ≡ staging)
        → (s : State)
        → Ends
            (λ a. IsCommitted s args message)
            (λ u. ⊥)
            (stage_and_commit env label (λ g. GitOps.run env g args) message s)
    unfolding commands
    stage_and_commit-IsCommitted label message args stages s =
        subst (Ends (λ a. IsCommitted s args message) (λ u. ⊥))
          (sym (stage_and_commit-made env well label message args stages s))
          (record_clean-cleans _ refl)

    IsSilent-IsCommitted :
        (s u v : State) (args : List Text) (message : Text)
        → IsSilent s u
        → IsCommitted u args message v
        → IsCommitted s args message v
    IsSilent-IsCommitted s u v args message (w, c) (l, rest) = (
      l
          ∙ ap (λ x. committed x.git args message (lines u)) w
          ∙ ap (λ cs. committed s.worker.git args message (map (λ (x : Command). x.line) cs)) c,
      rest,
    )

    stamp_event-IsSilent :
        (event : SyncEvent) (s : State) → Ends (λ a. IsSilent s) (λ u. ⊥) (stamp_event env event s)
    unfolding stamp_event commands
    stamp_event-IsSilent event s =
        let paths = map (child_text s.worker.git.vault) event.paths in
        Ends.handle (IsSilent s) (λ a. IsSilent s) (λ u. ⊥) s (lift (stamp_paths env paths))
          (λ e. log Host.stamping_skipped)
          (go (stamp_paths env paths s.trace)
            (stamp_paths-Keeps env (commands s.trace) paths s.trace refl))
          (λ e u j. j)
      where
        go :
            (r : Run Trace (Unit {0}))
            → commands (final r) ≡ commands s.trace
            → Ends {A = Unit {0}}
                (λ a. IsSilent s)
                (IsSilent s)
                (elim r [
                  | returned a t ↦ returned a (record s { trace = t })
                  | raised e t ↦ raised e (record s { trace = t })
                ])
        go (returned a t) c = (refl, c)
        go (raised e t) c = (refl, c)

    module _ (c : Settings) (event : SyncEvent) (s : State) where
      abbrev Written : {A : Type 0} → Run State A → Type 0
      Written =
          Ends
            (λ a. IsCommitted s (add_paths event.paths) (mcp_message event.operation event.paths))
            (λ u. ⊥)

      stamping :
          (wanted : Bool)
          → Ends (λ a. IsSilent s) (λ u. ⊥) ((if wanted then stamp_event env event else pure tt) s)
      stamping true = stamp_event-IsSilent event s
      stamping false = (refl, refl)

      pub handle_mcp_write-IsCommitted :
          (p : Text) (ps : List Text)
          → event.paths ≡ p ∷ ps
          → Written (handle_mcp_write env c event s)
      unfolding handle_mcp_write GitOps.add
      handle_mcp_write-IsCommitted p ps some_paths = go event.paths some_paths
        where
          args : List Text
          args = add_paths event.paths

          message : Text
          message = mcp_message event.operation event.paths

          cycle : M (Unit {0})
          cycle = stage_and_commit env (codes "mcp") (λ g. GitOps.run env g args) message

          go :
              (paths : List Text)
              → paths ≡ p ∷ ps
              → Written (
                  (elim paths as (λ x. M (Unit {0})) [
                    | [] ↦ pure tt
                    | q ∷ qs ↦ (do
                      if wants_stamp env c event then stamp_event env event else pure tt
                      stage_and_commit env
                          (codes "mcp")
                          (λ g. GitOps.add env g event.paths)
                          (mcp_message event.operation event.paths))
                  ])
                    s)
          go [] e = absurd (cons_ne (sym e))
            where
              cons_ne : p ∷ ps ≢ []
              cons_ne x = cc
          go (q ∷ qs) e =
              Ends.seq (λ u. ⊥) (λ a. IsSilent s) (λ a. IsCommitted s args message) s
                (if wants_stamp env c event then stamp_event env event else pure tt) cycle
                (stamping (wants_stamp env c event))
                (λ a u j.
                  Ends.weaken (λ u. ⊥) (λ a. IsCommitted u args message)
                    (λ a. IsCommitted s args message) (cycle u)
                    (λ a v. IsSilent-IsCommitted s u v args message j)
                    (stage_and_commit-IsCommitted (codes "mcp") message args
                      (λ g. verb-add g event.paths) u))

    pub handle_sync_sweep-IsCommitted :
        (s : State)
        → Ends
            (λ a. IsCommitted s add_all_args (sweep_text env s))
            (λ u. ⊥)
            (handle_sync_sweep env s)
    unfolding handle_sync_sweep sweep_message now_utc commands GitOps.add_all
    handle_sync_sweep-IsCommitted s =
        stage_and_commit-IsCommitted (codes "sweep") (sweep_text env s) add_all_args
          (λ g. verb-add_all g) (record s { trace = Host.read_clock ∷ s.trace })

    -- Where git stages, finds changes at each comparison and commits: whatever the disk, the clock
    -- and the frontmatter do, and whether stamping is on or off, the work on a write that names
    -- paths runs exactly four commands, the staging of those paths, the question for changes twice
    -- and the commit with the write's message, and the work on a sweep the same four with the
    -- staging of all and the sweep's time in the message. Either returns, with a worker that is
    -- marked as having unpushed commits and is not degraded, also if it was degraded before.
    pub handle_event-IsCommitted :
        (c : Settings) (operation p : Text) (ps : List Text) (trigger : Text) (s : State)
        → Ends
            (λ a. IsCommitted s (add_paths (p ∷ ps)) (mcp_message (some operation) (p ∷ ps)))
            (λ u. ⊥)
            (handle_event env c (mcp_write operation (p ∷ ps)) s)
          × Ends
              (λ a. IsCommitted s add_all_args (sweep_text env s))
              (λ u. ⊥)
              (handle_event env c (sync_sweep trigger) s)
    unfolding handle_event dispatch mcp_write sync_sweep text_eq
    handle_event-IsCommitted c operation p ps trigger s = (
      Ends.handle (λ u. ⊥)
          (λ a. IsCommitted s (add_paths (p ∷ ps)) (mcp_message (some operation) (p ∷ ps))) (λ u. ⊥)
          s (handle_mcp_write env c (mcp_write operation (p ∷ ps)))
          (λ e. log (Host.handling_failed mcp_write_kind))
          (handle_mcp_write-IsCommitted c (mcp_write operation (p ∷ ps)) s p ps refl)
          (λ e u j. absurd j),
      Ends.handle (λ u. ⊥) (λ a. IsCommitted s add_all_args (sweep_text env s)) (λ u. ⊥) s
          (handle_sync_sweep env) (λ e. log (Host.handling_failed sync_sweep_kind))
          (handle_sync_sweep-IsCommitted s) (λ e u j. absurd j),
    )
