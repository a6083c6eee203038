-- ===== src/Extension.antt =====
-- src/obsidian_git_sync/extension.py: the extension's life in the server.
pub mod Inert
pub mod Startup
pub mod Attached
pub mod Asks
use obsidian_git_sync_mcp.Common.{
  ℕ, Bool, true, false, not, Option, none, some, List, [], ◌∷◌, if◌then◌else◌, Exn, value_error,
  Run, returned, raised, Exec, throw, catch, pure, ◌>>=◌, ◌>>◌,
}
use obsidian_git_sync_mcp.Text.{Text, codes}
use obsidian_git_sync_mcp.Numeral.{ℤ}
use obsidian_git_sync_mcp.FilePath.{FilePath}
use obsidian_git_sync_mcp.Host
use obsidian_git_sync_mcp.Host.{Env, Io, Trace, logged}
use obsidian_git_sync_mcp.Locks
use obsidian_git_sync_mcp.Events.{SyncEvent, EventQueue, mcp_write, sync_sweep, put}
use obsidian_git_sync_mcp.Config
use obsidian_git_sync_mcp.Config.{Settings, is_enabled, validate_gitsync}
use obsidian_git_sync_mcp.Worker
use obsidian_git_sync_mcp.Worker.{Worker, State}
use obsidian_git_sync_mcp.Push.{maybe_push}
use obsidian_git_sync_mcp.Loop.{from_config}

-- `listening` says that the two listeners are attached, `working` that the worker's thread runs, and
-- `timer` holds the interval of the timer's thread.
pub record Extension : Type 0 where
  pub enabled : Bool
  pub events : EventQueue
  pub listening : Bool
  pub worker : Option Worker
  pub working : Bool
  pub timer : Option ℤ
  pub timer_stop : Bool

pub record Process : Type 0 where
  pub ext : Extension
  pub trace : Trace

abbrev pub P : Type 0 → Type 0
P A = Exec Process A

abbrev lift : {A : Type 0} → Io A → P A
lift io s = elim (io s.trace) [
  | returned a t ↦ returned a (record s { trace = t })
  | raised e t ↦ raised e (record s { trace = t })
]

abbrev update : (Extension → Extension) → P (Unit {0})
update f s = returned tt (record s { ext = f s.ext })

-- `__init__`
unfoldable pub new_extension : Settings → Extension
new_extension c = record {
  enabled = is_enabled c;
  events = [];
  listening = false;
  worker = none;
  working = false;
  timer = none;
  timer_stop = false;
}

-- A method of the worker, on the worker of the process.
unfoldable pub on_worker : Worker → Worker.M (Unit {0}) → P (Unit {0})
on_worker w m s = elim (m (record { worker = w; trace = s.trace })) [
  | returned a r ↦
      returned a (record { ext = record s.ext { worker = some r.worker }; trace = r.trace })
  | raised e r ↦
      raised e (record { ext = record s.ext { worker = some r.worker }; trace = r.trace })
]

module _ (env : Env) (c : Settings) (vault : FilePath) where
  unfoldable pub before_indexes_start : P (Unit {0})
  before_indexes_start s =
      if not s.ext.enabled
      then lift (Host.log Host.extension_disabled) s
      else (do
        lift (validate_gitsync env c vault)
        update (λ x. record x { listening = true })
        lift (Host.log Host.extension_enabled))
          s

  -- `locks.sweep(self._worker.git.git_dir())`, under its guard
  unfoldable pub sweep_locks : Worker → P (Unit {0})
  unfolding on_worker
  sweep_locks w =
      catch (on_worker w (do gitdir ← Worker.git_dir env; Worker.lift (Locks.sweep env gitdir)))
        (λ e. lift (Host.log Host.sweep_failed))

  -- `config.sweep_interval()`, and the timer's thread with it
  unfoldable pub start_timer : P (Unit {0})
  start_timer = elim (Config.sweep_interval c) [
    | none ↦ throw (value_error (codes "invalid literal for int()"))
    | some interval ↦ update (λ x. record x { timer = some interval })
  ]

  unfoldable pub after_indexes_start : P (Unit {0})
  unfolding sweep_locks start_timer
  after_indexes_start s =
      if not s.ext.enabled
      then returned tt s
      else (do
        w ← lift (from_config env c vault)
        update (λ x. record x { worker = some w })
        sweep_locks w
        update (λ x. record x { working = true })
        start_timer)
          s

  -- The timer stops first; the worker's flush follows its loop's end.
  unfoldable pub shutdown : P (Unit {0})
  unfolding on_worker
  shutdown s =
      (do
        update (λ x. record x { timer_stop = true })
        elim s.ext.worker [ none ↦ pure tt | some w ↦ on_worker w (maybe_push env) ])
        s

-- The two listeners, which are called only once they are attached, and a round of the timer's loop.
unfoldable pub on_write : Text → List Text → Extension → Extension
unfolding put mcp_write
on_write operation paths x =
    if x.listening then record x { events = put x.events (mcp_write operation paths) } else x

unfoldable pub on_change : Extension → Extension
unfolding put sync_sweep
on_change x =
    if x.listening then record x { events = put x.events (sync_sweep (codes "watcher")) } else x

unfoldable pub timer_tick : Extension → Extension
unfolding put sync_sweep
timer_tick x = elim x.timer [
  | none ↦ x
  | some interval ↦
      if x.timer_stop then x else record x { events = put x.events (sync_sweep (codes "timer")) }
]
