-- ===== src/Loop.antt =====
-- src/obsidian_git_sync/worker.py: the loop, its end, and the worker's construction.
pub mod Safety
pub mod Secrecy
pub mod Bounds
pub mod Commits
pub mod Story
pub mod Frozen
pub mod Flushed
pub mod Attempts
pub mod Messages
use mathlib.Core.Option
use obsidian_git_sync_mcp.Common.{
  ℕ, Bool, true, false, Option, none, some, List, [], ◌∷◌, if◌then◌else◌, Exn, value_error,
  returned, raised, throw, catch, pure, ◌>>=◌, ◌>>◌, Exec,
}
use obsidian_git_sync_mcp.Text.{Text, codes, nonempty}
use obsidian_git_sync_mcp.Numeral.{Float}
use obsidian_git_sync_mcp.FilePath.{FilePath}
use obsidian_git_sync_mcp.Host.{Env, Io, read_clock}
use obsidian_git_sync_mcp.GitOps.{GitOps, default_timeout}
use obsidian_git_sync_mcp.CredentialHelper.{helper_name}
use obsidian_git_sync_mcp.Events.{SyncEvent}
use obsidian_git_sync_mcp.Config
use obsidian_git_sync_mcp.Config.{Settings}
use obsidian_git_sync_mcp.Worker.{Worker, State, M, handle_event}
use obsidian_git_sync_mcp.Push.{push_overdue, maybe_push}

-- What `events.get` comes to: an event, `queue.Empty`, or another exception.
pub data Poll : Type 0 where
  arrived : SyncEvent → Poll
  quiet : Poll
  broke : Exn → Poll

module _ (env : Env) (c : Settings) where
  -- One round of the loop.
  unfoldable pub iteration : Poll → M (Unit {0})
  iteration (arrived event) = do
    handle_event env c event
    overdue ← push_overdue env
    if overdue then maybe_push env else pure tt
  iteration quiet = maybe_push env
  iteration (broke e) = throw e

  -- The loop, over what its rounds get until it sees the stop flag.
  unfoldable pub run : List Poll → M (Unit {0})
  unfolding iteration
  run [] = pure tt
  run (p ∷ ps) = do iteration p; run ps

  -- A whole life of the worker: the loop ends by the flag or by an exception, which ends the thread
  -- and nothing else; `stop` then flushes.
  unfoldable pub lifetime : List Poll → M (Unit {0})
  unfolding run
  lifetime polls = do catch (run polls) (λ e. pure tt); maybe_push env

-- `float(raw)`, with its `ValueError`.
unfoldable pub seconds_of : Option Float → Io Float
seconds_of none = throw (value_error (codes "could not convert string to float"))
seconds_of (some x) = pure x

-- The worker that `__init__` makes of its arguments.
new_worker : GitOps → Settings → Float → Float → ℕ → Worker
new_worker git c debounce max_interval at = record {
  git = git;
  remote = Config.remote c;
  branch = Config.branch c;
  push_debounce = debounce;
  push_max_interval = max_interval;
  heartbeat_url = Config.heartbeat_url c;
  unpushed = false;
  last_push = at;
  degraded_rc = none;
}

unfoldable pub git_of : Settings → FilePath → GitOps
unfolding nonempty
git_of c vault = record {
  vault = vault;
  timeout = default_timeout;
  author_name = Config.author_name c;
  author_email = Config.author_email c;
  credential_helper = if nonempty (Config.token c) then some helper_name else none;
  git_dir_cache = none;
}

-- `from_config`
unfoldable pub from_config : Env → Settings → FilePath → Io Worker
unfolding seconds_of new_worker git_of
from_config env c vault = do
  debounce ← seconds_of (Config.push_debounce env c)
  max_interval ← seconds_of (Config.push_max_interval env c)
  λ t.
      returned (new_worker (git_of c vault) c debounce max_interval (env.monotonic t))
        (read_clock ∷ t)
