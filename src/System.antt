-- ===== src/System.antt =====
-- src/obsidian_git_sync/extension.py and worker.py: the threads that share the queue, as a step
-- relation. A step is what one thread does between two dealings with the others: a producer's `put`,
-- the worker's `get`, its work on an event, and the parts of `shutdown`. The worker's own state is
-- its thread's, and the flush's where `join` has returned.
pub mod Order
pub mod Simulation
pub mod Sequential
pub mod Drains
pub mod Tracking
pub mod Booted
pub mod Stops
pub mod Shutdown
use mathlib.Core.List
use obsidian_git_sync_mcp.Common.{
  ◌≡◌, ◌≢◌, Bool, true, false, Option, none, some, List, [], ◌∷◌, ◌++◌, if◌then◌else◌, final, Run,
  returned, raised,
}
use obsidian_git_sync_mcp.Text.{Text, codes}
use obsidian_git_sync_mcp.Numeral.{ℤ}
use obsidian_git_sync_mcp.Host.{Env}
use obsidian_git_sync_mcp.Events.{SyncEvent, mcp_write, sync_sweep, get_nowait, put}
use obsidian_git_sync_mcp.Config.{Settings}
use obsidian_git_sync_mcp.Worker.{Worker}
use obsidian_git_sync_mcp.Push.{maybe_push}
use obsidian_git_sync_mcp.Loop.{arrived, quiet, iteration}
use obsidian_git_sync_mcp.Extension.{Extension, Process, on_write, on_change, on_worker}

-- Where the worker's thread stands: at the test of the flag, in `get`, behind it, or at its end.
pub data Thread : Type 0 where
  checking waiting ended : Thread
  handling : SyncEvent → Thread

-- How far `shutdown` is: not called, behind `_timer_stop.set()`, behind `_stop.set()`, behind the
-- flush.
pub data Phase : Type 0 where
  serving timer_stopped flagged flushed : Phase

-- `ticking` says that the timer's `wait` has run out and its `put` is to come. `accepted` and
-- `handled` are the events that were put and that the worker is done with,
-- the oldest first; the program keeps no such record.
pub record System : Type 0 where
  pub process : Process
  pub thread : Thread
  pub ticking : Bool
  pub stop : Bool
  pub phase : Phase
  pub accepted : List SyncEvent
  pub handled : List SyncEvent

-- What the server and its watcher call.
pub data Call : Type 0 where
  write : Text → List Text → Call
  change : Call

unfoldable pub produce : Call → Extension → Extension
unfolding on_write on_change
produce (write operation paths) x = on_write operation paths x
produce change x = on_change x

-- The event that a call puts, if any.
unfoldable pub offered : Call → Extension → List SyncEvent
unfolding mcp_write sync_sweep
offered (write operation paths) x = if x.listening then mcp_write operation paths ∷ [] else []
offered change x = if x.listening then sync_sweep (codes "watcher") ∷ [] else []

-- The start of the worker's thread, behind the events that were put before.
unfoldable pub begin : Process → System
begin p = record {
  process = p;
  thread = checking;
  ticking = false;
  stop = false;
  phase = serving;
  accepted = p.ext.events;
  handled = [];
}

-- A round that returns leads back to the test of the flag; one that raises ends the thread.
unfoldable pub thread_after : Run Process (Unit {0}) → Thread
thread_after (returned a p) = checking
thread_after (raised e p) = ended

module _ (env : Env) (c : Settings) where
  pub data Step (s u : System) : Type 0 where
    produces :
        (call : Call)
        → u ≡ record s {
          process = record s.process { ext = produce call s.process.ext };
          accepted = s.accepted ++ offered call s.process.ext;
        }
        → Step s u
    -- `_timer_stop.wait(interval)` returns false, and then the timer's `put`.
    wakes :
        (interval : ℤ)
        → s.process.ext.timer ≡ some interval
        → s.process.ext.timer_stop ≡ false
        → u ≡ record s { ticking = true }
        → Step s u
    ticks :
        s.ticking ≡ true
        → u ≡ record s {
          process = record s.process {
            ext = record s.process.ext {
              events = put s.process.ext.events (sync_sweep (codes "timer"));
            };
          };
          ticking = false;
          accepted = s.accepted ++ sync_sweep (codes "timer") ∷ [];
        }
        → Step s u
    enters : s.thread ≡ checking → s.stop ≡ false → u ≡ record s { thread = waiting } → Step s u
    leaves : s.thread ≡ checking → s.stop ≡ true → u ≡ record s { thread = ended } → Step s u
    takes :
        (e : SyncEvent) (rest : List SyncEvent)
        → s.thread ≡ waiting
        → get_nowait s.process.ext.events ≡ some (e, rest)
        → u ≡ record s {
          process = record s.process { ext = record s.process.ext { events = rest } };
          thread = handling e;
        }
        → Step s u
    -- `queue.Empty`
    expires :
        (w : Worker)
        → s.thread ≡ waiting
        → get_nowait s.process.ext.events ≡ none
        → s.process.ext.worker ≡ some w
        → u ≡ record s {
          process = final (on_worker w (iteration env c quiet) s.process);
          thread = thread_after (on_worker w (iteration env c quiet) s.process);
        }
        → Step s u
    -- Another exception of `get` ends the thread.
    breaks : s.thread ≡ waiting → u ≡ record s { thread = ended } → Step s u
    handles :
        (e : SyncEvent) (w : Worker)
        → s.thread ≡ handling e
        → s.process.ext.worker ≡ some w
        → u ≡ record s {
          process = final (on_worker w (iteration env c (arrived e)) s.process);
          thread = thread_after (on_worker w (iteration env c (arrived e)) s.process);
          handled = s.handled ++ e ∷ [];
        }
        → Step s u
    stops_timer :
        s.phase ≡ serving
        → u ≡ record s {
          process = record s.process { ext = record s.process.ext { timer_stop = true } };
          phase = timer_stopped;
        }
        → Step s u
    flags : s.phase ≡ timer_stopped → u ≡ record s { stop = true; phase = flagged } → Step s u
    -- `join` has returned: the thread has ended, or the time limit has run out while the thread was in
    -- `get` or between two rounds.
    flushes :
        (w : Worker)
        → s.phase ≡ flagged
        → ((e : SyncEvent) → s.thread ≢ handling e)
        → s.process.ext.worker ≡ some w
        → u ≡ record s { process = final (on_worker w (maybe_push env) s.process); phase = flushed }
        → Step s u

  pub data Reach (s : System) : System → Type 0 where
    here : Reach s s
    next : {t u : System} → Reach s t → Step t u → Reach s u
