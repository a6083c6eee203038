-- ===== src/Tests/SystemTests.antt =====
-- Theorems on the system of the threads at a concrete run: a write is noticed, and taken by the worker.
use obsidian_git_sync_mcp.Common.{◌≡◌, ◌≤◌, ◌+◌, refl, true, false, some, List, [], ◌∷◌, ◌++◌}
use obsidian_git_sync_mcp.Text.{codes}
use obsidian_git_sync_mcp.Numeral.{pos}
use obsidian_git_sync_mcp.Host.{Env, timed_out}
use obsidian_git_sync_mcp.Events.{SyncEvent, mcp_write, sync_sweep, get_nowait, put}
use obsidian_git_sync_mcp.Worker.Tracking.{IsTracked}
use obsidian_git_sync_mcp.Worker.{Worker}
use obsidian_git_sync_mcp.Extension.{Process}
use obsidian_git_sync_mcp.System.{
  System, waiting, handling, flagged, write, change, produce, offered, begin, produces, enters,
  takes, Reach, here, next,
}
use obsidian_git_sync_mcp.System.Order.{IsOrdered, Reach-IsOrdered}
use obsidian_git_sync_mcp.System.Simulation.{Simulates}
use obsidian_git_sync_mcp.System.Sequential.{Reach-Simulates}
use obsidian_git_sync_mcp.System.Drains.{IsReady, worked_off, Reach-drained}
use obsidian_git_sync_mcp.System.Tracking.{Reach-IsTracked}
use obsidian_git_sync_mcp.System.Shutdown.{Ends, Reach-Ends}
use obsidian_git_sync_mcp.System.Stops.{left, worked, Reach-stops}
use obsidian_git_sync_mcp.Tests.World.{world, start, settings, worker}

abbrev hangs : Env
hangs = world timed_out

abbrev started : Process
started = record {
  ext = record {
    enabled = true;
    events = [];
    listening = true;
    worker = some worker;
    working = true;
    timer = some (pos 60);
    timer_stop = false;
  };
  trace = [];
}

abbrev noted : SyncEvent
noted = mcp_write (codes "updated") (codes "a.md" ∷ [])

-- Behind a write and a change, with the worker in `get`.
abbrev noticed : System
noticed = record (begin started) {
  process = record started {
    ext = produce change (produce (write (codes "updated") (codes "a.md" ∷ [])) started.ext);
  };
  accepted =
      offered (write (codes "updated") (codes "a.md" ∷ [])) started.ext
      ++ offered change (produce (write (codes "updated") (codes "a.md" ∷ [])) started.ext);
}

Reach-noticed : Reach hangs settings (begin started) noticed
unfolding begin
Reach-noticed =
    next (next here (produces (write (codes "updated") (codes "a.md" ∷ [])) refl))
      (produces change refl)

abbrev taken : System
taken = record noticed {
  process = record noticed.process { ext = record noticed.process.ext { events = get_queue } };
  thread = handling noted;
}
  where
    get_queue : List SyncEvent
    get_queue = sync_sweep (codes "watcher") ∷ []

Reach-taken : Reach hangs settings (begin started) taken
unfolding begin produce offered get_nowait put
Reach-taken =
    next (next Reach-noticed (enters refl refl refl))
      (takes noted (sync_sweep (codes "watcher") ∷ []) refl refl refl)

Reach-IsOrdered_example : IsOrdered taken
Reach-IsOrdered_example = Reach-IsOrdered started Reach-taken

Reach-Simulates_example : Simulates hangs settings start taken
Reach-Simulates_example = Reach-Simulates hangs settings started worker refl Reach-taken

Reach-drained_example :
    (u : System) × (Reach hangs settings noticed u
      × (IsReady hangs settings (worked_off hangs settings start noticed.process.ext.events) u
          × ((u.process.ext.events ≡ [])
              × (u.handled ≡ noticed.handled ++ noticed.process.ext.events))))
unfolding produce begin
Reach-drained_example = Reach-drained hangs settings noticed start ((refl, refl), (refl, refl))

Reach-IsTracked_example :
    (v : Worker) × ((taken.process.ext.worker ≡ some v)
      × IsTracked (record { worker = v; trace = taken.process.trace }))
Reach-IsTracked_example = Reach-IsTracked hangs settings started worker refl (λ p. refl) Reach-taken

-- The flag is set while the worker is in `get`, and an event is there.
abbrev stopping : System
stopping = record noticed { thread = waiting; stop = true; phase = flagged }

last_event : Reach hangs settings stopping (record taken { stop = true; phase = flagged })
unfolding begin produce offered get_nowait put
last_event = next here (takes noted (sync_sweep (codes "watcher") ∷ []) refl refl refl)

Reach-stops_example :
    (worked last_event + left taken.thread ≤ left stopping.thread) × (worked last_event ≤ 3)
Reach-stops_example = Reach-stops last_event refl

Reach-Ends_example : Ends hangs settings taken
Reach-Ends_example = Reach-Ends hangs settings started worker refl Reach-taken
