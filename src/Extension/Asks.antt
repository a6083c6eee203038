-- ===== src/Extension/Asks.antt =====
-- src/obsidian_git_sync/extension.py: the start only asks git: none of its commands
-- stages, commits, fetches, rebases or pushes.
use obsidian_git_sync_mcp.Common.{
  ◌≡◌, ap, Bool-cases, inl, inr, true, not, some, List, ◌∷◌, Run, returned, raised, final, ◌>>=◌,
  ◌>>◌, arith,
}
use obsidian_git_sync_mcp.Common.Rules.{Keeps, bind, seq, handle}
use obsidian_git_sync_mcp.FilePath.{FilePath}
use obsidian_git_sync_mcp.Host
use obsidian_git_sync_mcp.Host.{
  Env, Io, Trace, Answer, got, refused, GitResult, is_ok, exited, failed,
}
use obsidian_git_sync_mcp.GitOps
use obsidian_git_sync_mcp.GitOps.{GitOps, setting, argv}
use obsidian_git_sync_mcp.Locks
use obsidian_git_sync_mcp.Locks.{Lock}
use obsidian_git_sync_mcp.Config
use obsidian_git_sync_mcp.Config.{Settings}
use obsidian_git_sync_mcp.Worker
use obsidian_git_sync_mcp.Worker.{Worker, State, M}
use obsidian_git_sync_mcp.Worker.Lifted.{lift_silent-Keeps}
use obsidian_git_sync_mcp.Worker.Reports.{dir_args, git_dir-Kept}
use obsidian_git_sync_mcp.Loop.{from_config, seconds_of}
use obsidian_git_sync_mcp.Extension.{
  Process, lift, update, on_worker, sweep_locks, start_timer, before_indexes_start,
  after_indexes_start,
}
use obsidian_git_sync_mcp.History.{Command, commands, verb, other}
use obsidian_git_sync_mcp.History.Verbs.{verb-rev_parse}
use obsidian_git_sync_mcp.History.Laws.{commands-run}
use obsidian_git_sync_mcp.History.Silent.{sweep-Keeps}
use obsidian_git_sync_mcp.Config.Asks.{validate_gitsync-Kept}

-- What is said of the commands, and is kept by any question.
module _ (P : List Command → Type 0)
    (asked : (c : Command) (cs : List Command) → verb c.line ≡ other → P cs → P (c ∷ cs))
    (env : Env) (c : Settings) (vault : FilePath) where
  abbrev Kept : Trace → Type 0
  Kept t = P (commands t)

  abbrev pub Asked : Process → Type 0
  Asked s = P (commands s.trace)

  lift-Asked : {A : Type 0} (io : Io A) → Keeps Kept io → Keeps Asked (lift io)
  lift-Asked {A} io k s p = go (io s.trace) (k s.trace p)
    where
      go :
          (r : Run Trace A)
          → Kept (final r)
          → Asked (
              final {S = Process} {A = A} (elim r [
                | returned a t ↦ returned a (record s { trace = t })
                | raised e t ↦ raised e (record s { trace = t })
              ]))
      go (returned a t) p = p
      go (raised e t) p = p

  on_worker-Asked :
      (w : Worker) (m : M (Unit {0}))
      → Keeps (λ (s : State). Kept s.trace) m
      → Keeps Asked (on_worker w m)
  unfolding on_worker
  on_worker-Asked w m k s p =
      go (m (record { worker = w; trace = s.trace })) (k (record { worker = w; trace = s.trace }) p)
    where
      go :
          (r : Run State (Unit {0}))
          → Kept (final r).trace
          → Asked (
              final {S = Process} {A = Unit {0}} (elim r [
                | returned a q ↦
                    returned a
                      (record { ext = record s.ext { worker = some q.worker }; trace = q.trace })
                | raised e q ↦
                    raised e
                      (record { ext = record s.ext { worker = some q.worker }; trace = q.trace })
              ]))
      go (returned a q) p = p
      go (raised e q) p = p

  asks_dir : (g : GitOps) (t : Trace) → Kept t → Kept (final (GitOps.run env g dir_args t))
  asks_dir g t p = rw (commands-run env g dir_args t) (asked _ (commands t) (verb-rev_parse g) p)

  sweep_locks-Asked : (w : Worker) → Keeps Asked (sweep_locks env c vault w)
  unfolding sweep_locks commands
  sweep_locks-Asked w =
      handle Asked
        (on_worker w (do gitdir ← Worker.git_dir env; Worker.lift (Locks.sweep env gitdir)))
        (λ e. lift (Host.log Host.sweep_failed))
        (on_worker-Asked w (do gitdir ← Worker.git_dir env; Worker.lift (Locks.sweep env gitdir))
          (bind (λ (s : State). Kept s.trace) (Worker.git_dir env) _ (git_dir-Kept env P asks_dir)
            (λ gitdir.
              lift_silent-Keeps P (Locks.sweep env gitdir) (λ h. sweep-Keeps env h gitdir))))
        (λ e s p. p)

  start_timer-Asked : Keeps Asked (start_timer env c vault)
  unfolding start_timer
  start_timer-Asked s p = ground (arith, p)

  from_config-Kept : Keeps Kept (from_config env c vault)
  unfolding from_config seconds_of commands
  from_config-Kept t k = ground (arith, k)

  pub after_indexes_start-Asked : Keeps Asked (after_indexes_start env c vault)
  unfolding after_indexes_start
  after_indexes_start-Asked s p = elim (Bool-cases s.ext.enabled) [
    | inl e ↦
        rw (ap not e, after_indexes_start)
          (bind Asked (lift (from_config env c vault)) _
            (lift-Asked (from_config env c vault) from_config-Kept) starts s p)
    | inr e ↦ rw (ap not e, after_indexes_start) p
  ]
    where
      starts :
          (w : Worker)
          → Keeps Asked (
              update (λ x. record x { worker = some w })
              >> (sweep_locks env c vault w
                  >> (update (λ x. record x { working = true }) >> start_timer env c vault)))
      starts w =
          seq Asked (update (λ x. record x { worker = some w }))
            (sweep_locks env c vault w
              >> (update (λ x. record x { working = true }) >> start_timer env c vault))
            (λ v q. q)
            (seq Asked (sweep_locks env c vault w)
              (update (λ x. record x { working = true }) >> start_timer env c vault)
              (sweep_locks-Asked w)
              (seq Asked (update (λ x. record x { working = true })) (start_timer env c vault)
                (λ v q. q) start_timer-Asked))

  pub before_indexes_start-Asked : Keeps Asked (before_indexes_start env c vault)
  unfolding before_indexes_start commands
  before_indexes_start-Asked s p = elim (Bool-cases s.ext.enabled) [
    | inl e ↦
        rw (ap not e, before_indexes_start)
          (seq Asked (lift (Config.validate_gitsync env c vault)) _
            (lift-Asked (Config.validate_gitsync env c vault)
              (validate_gitsync-Kept P asked env c vault))
            (λ v q. q) s p)
    | inr e ↦ rw (ap not e, before_indexes_start) p
  ]
