-- ===== src/Extension/Inert.antt =====
-- src/obsidian_git_sync/extension.py: the life of a disabled extension.
use obsidian_git_sync_mcp.Common.{◌≡◌, refl, ◌∙◌, true, false, List, ◌∷◌, returned, ◌>>◌}
use obsidian_git_sync_mcp.Common.Steps.{seq-returned}
use obsidian_git_sync_mcp.Text.{Text}
use obsidian_git_sync_mcp.FilePath.{FilePath}
use obsidian_git_sync_mcp.Host
use obsidian_git_sync_mcp.Host.{Env, Trace, logged}
use obsidian_git_sync_mcp.Config.{Settings, is_enabled}
use obsidian_git_sync_mcp.Extension.{
  Process, P, new_extension, before_indexes_start, after_indexes_start, shutdown, on_write,
  on_change, timer_tick,
}

module _ (env : Env) (c : Settings) (vault : FilePath) where
  -- The server's calls, in their order.
  abbrev pub life : P (Unit {0})
  life =
      before_indexes_start env c vault >> (after_indexes_start env c vault >> shutdown env c vault)

  -- What runs of a disabled extension: one log line at the start, and the timer's stop flag at the end.
  abbrev pub inert : Trace → Process
  inert t = record {
    ext = record (new_extension c) { timer_stop = true };
    trace = logged Host.extension_disabled ∷ t;
  }

  abbrev fresh : Trace → Process
  fresh t = record { ext = new_extension c; trace = t }

  before_disabled :
      (t : Trace)
      → is_enabled c ≡ false
      → before_indexes_start env c vault (fresh t)
        ≡ returned tt (fresh (logged Host.extension_disabled ∷ t))
  unfolding before_indexes_start new_extension
  before_disabled t e = rw (e, before_indexes_start, new_extension) refl

  after_disabled :
      (t : Trace)
      → is_enabled c ≡ false
      → after_indexes_start env c vault (fresh t) ≡ returned tt (fresh t)
  unfolding after_indexes_start new_extension
  after_disabled t e = rw (e, after_indexes_start, new_extension) refl

  life_disabled : (t : Trace) → is_enabled c ≡ false → life (fresh t) ≡ returned tt (inert t)
  unfolding shutdown new_extension
  life_disabled t e =
      seq-returned (before_indexes_start env c vault)
        (after_indexes_start env c vault >> shutdown env c vault) (before_disabled t e)
      ∙ seq-returned (after_indexes_start env c vault) (shutdown env c vault)
          (after_disabled (logged Host.extension_disabled ∷ t) e)

  -- Where the settings do not enable it, a new extension goes through the server's whole life without
  -- an exception, without a git command and without a worker, listeners or a timer, whatever the other
  -- settings say; and at its end a write, a change and a timer's round leave the queue empty.
  pub life-disabled :
      (t : Trace) (operation : Text) (paths : List Text)
      → is_enabled c ≡ false
      → (life (record { ext = new_extension c; trace = t }) ≡ returned tt (inert t))
        × ((on_write operation paths (inert t).ext ≡ (inert t).ext)
            × ((on_change (inert t).ext ≡ (inert t).ext)
                × (timer_tick (inert t).ext ≡ (inert t).ext)))
  unfolding before_indexes_start after_indexes_start shutdown new_extension on_write on_change
      timer_tick
  life-disabled t operation paths e = (life_disabled t e, (refl, (refl, refl)))
