-- ===== src/Extension/Startup.antt =====
-- src/obsidian_git_sync/extension.py: `after_indexes_start` behind the check of the settings.
use obsidian_git_sync_mcp.Common.{
  ◌≡◌, refl, sym, ap, true, not, Option, none, some, ◌>>=◌, ◌>>◌, Run, returned, raised, Returns,
}
use obsidian_git_sync_mcp.Common.Ends
use obsidian_git_sync_mcp.Common.Ends.{Ends}
use obsidian_git_sync_mcp.Numeral.{ℤ, Float}
use obsidian_git_sync_mcp.FilePath.{FilePath}
use obsidian_git_sync_mcp.Host
use obsidian_git_sync_mcp.Host.{Env, Trace, Io}
use obsidian_git_sync_mcp.Config.{
  Settings, is_enabled, validate_gitsync, sweep_interval, push_debounce, push_max_interval,
}
use obsidian_git_sync_mcp.Config.Validated.{IsAccepted, IsPositive, validate_gitsync-accessors}
use obsidian_git_sync_mcp.Locks
use obsidian_git_sync_mcp.Worker
use obsidian_git_sync_mcp.Worker.{Worker, State}
use obsidian_git_sync_mcp.Loop.{from_config, seconds_of}
use obsidian_git_sync_mcp.Extension.{
  Process, P, lift, update, on_worker, sweep_locks, start_timer, after_indexes_start,
}

abbrev Never : Process → Type 0
Never s = ⊥

accepted : (o : Option Float) → IsAccepted o → (x : Float) × (o ≡ some x)
accepted none h = absurd h
accepted (some x) h = (x, refl)

positive : (o : Option ℤ) → IsPositive o → (x : ℤ) × (o ≡ some x)
positive none h = absurd h
positive (some x) h = (x, refl)

module _ (env : Env) (c : Settings) (vault : FilePath) where
  -- The worker is there, its thread and the timer run, and the timer has the configured interval.
  abbrev pub IsStarted : Process → Type 0
  IsStarted s =
      ((w : Worker) × (s.ext.worker ≡ some w))
      × ((s.ext.working ≡ true) × (s.ext.timer ≡ sweep_interval c))

  -- A worker is there.
  abbrev HasWorker : Process → Type 0
  HasWorker s = (w : Worker) × (s.ext.worker ≡ some w)

  on_worker-HasWorker :
      (w : Worker) (m : Worker.M (Unit {0})) (s : Process)
      → Ends (λ a. HasWorker) HasWorker (on_worker w m s)
  unfolding on_worker
  on_worker-HasWorker w m s = go (m (record { worker = w; trace = s.trace }))
    where
      go :
          (r : Run State (Unit {0}))
          → Ends {A = Unit {0}}
              (λ a. HasWorker)
              HasWorker
              (elim r [
                | returned a q ↦
                    returned a
                      (record { ext = record s.ext { worker = some q.worker }; trace = q.trace })
                | raised e q ↦
                    raised e
                      (record { ext = record s.ext { worker = some q.worker }; trace = q.trace })
              ])
      go (returned a q) = (q.worker, refl)
      go (raised e q) = (q.worker, refl)

  sweep_body : Worker.M (Unit {0})
  sweep_body = do gitdir ← Worker.git_dir env; Worker.lift (Locks.sweep env gitdir)

  -- A failing sweep is logged, and the start goes on.
  sweep_locks-HasWorker :
      (w : Worker) (s : Process) → Ends (λ a. HasWorker) Never (sweep_locks env c vault w s)
  unfolding sweep_locks sweep_body
  sweep_locks-HasWorker w s =
      Ends.handle HasWorker (λ a. HasWorker) Never s (on_worker w sweep_body)
        (λ e. lift (Host.log Host.sweep_failed)) (on_worker-HasWorker w sweep_body s) (λ e u h. h)

  -- The extension with a worker, before and after its sweep.
  start_with : Worker → P (Unit {0})
  start_with w = do
    update (λ x. record x { worker = some w })
    sweep_locks env c vault w
    update (λ x. record x { working = true })
    start_timer env c vault

  timer-IsStarted :
      (n : ℤ) (s : Process)
      → sweep_interval c ≡ some n
      → HasWorker s
      → s.ext.working ≡ true
      → Ends (λ a. IsStarted) Never (start_timer env c vault s)
  unfolding start_timer
  timer-IsStarted n s e h w = rw (e, start_timer) (h, (w, sym e))

  start_with-IsStarted :
      (n : ℤ) (w : Worker) (s : Process)
      → sweep_interval c ≡ some n
      → Ends (λ a. IsStarted) Never (start_with w s)
  unfolding start_with
  start_with-IsStarted n w s e =
      Ends.seq Never (λ a. HasWorker) (λ a. IsStarted)
        (record s { ext = record s.ext { worker = some w } }) (sweep_locks env c vault w) _
        (sweep_locks-HasWorker w (record s { ext = record s.ext { worker = some w } }))
        (λ a u h. timer-IsStarted n _ e h refl)

  from_config-Returns :
      (x y : Float) (t : Trace)
      → push_debounce env c ≡ some x
      → push_max_interval env c ≡ some y
      → Returns (from_config env c vault t)
  unfolding from_config seconds_of
  from_config-Returns x y t e f = rw (e, f, from_config, seconds_of) tt

  made :
      (n : ℤ) (r : Run Trace Worker) (s : Process)
      → sweep_interval c ≡ some n
      → Returns r
      → Ends {A = Unit {0}}
          (λ a. IsStarted)
          Never
          (elim (elim r as (λ x. Run Process Worker) [
            | returned a t ↦ returned a (record s { trace = t })
            | raised e t ↦ raised e (record s { trace = t })
          ]) [ returned w u ↦ start_with w u | raised e u ↦ raised e u ])
  made n (returned w t) s e h = start_with-IsStarted n w (record s { trace = t }) e
  made n (raised x t) s e h = h

  -- If the check returned for the settings of an enabled extension, then after_indexes_start raises
  -- nothing, whatever git, the file system and the sweep of the locks do by then: there is a worker, its
  -- thread runs, and the timer has the configured interval.
  pub after_indexes_start-IsStarted :
      (t : Trace) (s : Process)
      → is_enabled c ≡ true
      → Returns (validate_gitsync env c vault t)
      → s.ext.enabled ≡ true
      → Ends {A = Unit {0}} (λ a. IsStarted) Never (after_indexes_start env c vault s)
  unfolding after_indexes_start start_with
  after_indexes_start-IsStarted t s on h e =
      let (interval, debounce, limit) = validate_gitsync-accessors env c vault t on h in
      let (n, en) = positive (sweep_interval c) interval in
      let (x, ex) = accepted (push_debounce env c) debounce in
      let (y, ey) = accepted (push_max_interval env c) limit in
      rw (ap not e, after_indexes_start)
        (made n (from_config env c vault s.trace) s en (from_config-Returns x y s.trace ex ey))
