-- ===== src/System/Sequential.antt =====
-- src/obsidian_git_sync/worker.py: the threads against the worker's loop by itself.
use obsidian_git_sync_mcp.Common.{◌≡◌, refl, some, [], append-nil}
use obsidian_git_sync_mcp.Host.{Env}
use obsidian_git_sync_mcp.Config.{Settings}
use obsidian_git_sync_mcp.Worker.{Worker, State}
use obsidian_git_sync_mcp.Loop.{arrived, quiet, run}
use obsidian_git_sync_mcp.Extension.{Process}
use obsidian_git_sync_mcp.System.{
  System, begin, Step, produces, wakes, ticks, enters, leaves, takes, expires, breaks, handles,
  stops_timer, flags, flushes, Reach, here, next,
}
use obsidian_git_sync_mcp.System.Simulation.{Simulates, moves, rounds, flush, worker-produce}

module _ (env : Env) (c : Settings) where
  Step-Simulates :
      (s0 : State) {s u : System} → Step env c s u → Simulates env c s0 s → Simulates env c s0 u
  Step-Simulates s0 {s} (produces call e) h =
      moves env c s0 s h e (worker-produce call s.process.ext) refl refl (λ ps f. f)
  Step-Simulates s0 {s} (wakes interval t f e) h = moves env c s0 s h e refl refl refl (λ ps f. f)
  Step-Simulates s0 {s} (ticks t e) h = moves env c s0 s h e refl refl refl (λ ps f. f)
  Step-Simulates s0 {s} (enters t f e) h = moves env c s0 s h e refl refl refl (λ ps f. f)
  Step-Simulates s0 {s} (leaves t f e) h = moves env c s0 s h e refl refl refl (λ ps f. f)
  Step-Simulates s0 {s} (takes x rest t g e) h = moves env c s0 s h e refl refl refl (λ ps f. f)
  Step-Simulates s0 {s} (expires w t g x e) h =
      rw e (rounds env c s0 s h quiet w s.thread s.handled tt x (append-nil s.handled))
  Step-Simulates s0 {s} (breaks t e) h = moves env c s0 s h e refl refl refl (λ ps f. f)
  Step-Simulates s0 {s} (handles x w t g e) h =
      rw e (rounds env c s0 s h (arrived x) w s.thread _ tt g refl)
  Step-Simulates s0 {s} (stops_timer t e) h = moves env c s0 s h e refl refl refl (λ ps f. tt)
  Step-Simulates s0 {s} (flags t e) h = moves env c s0 s h e refl refl refl (λ ps f. tt)
  Step-Simulates s0 {s} (flushes w p t x e) h = rw e (flush env c s0 s h w x)

  -- However the producers, the timer, the worker's thread and shutdown interleave, with the flush
  -- behind the thread's end or, where the join runs out of time, beside a thread that waits: the
  -- process's git history and worker are what the worker's loop makes by itself on some answers of
  -- the queue, in which the events are those that were handled, in their order; and behind
  -- shutdown's flush, one of the quiet windows is that flush.
  pub Reach-Simulates :
      (p : Process) (w : Worker)
      → p.ext.worker ≡ some w
      → {s : System} → Reach env c (begin p) s
      → Simulates env c (record { worker = w; trace = p.trace }) s
  unfolding begin run
  Reach-Simulates p w e here =
      ([], (record { worker = w; trace = p.trace }, (refl, (refl, ((e, refl), tt)))))
  Reach-Simulates p w e (next r step) =
      Step-Simulates (record { worker = w; trace = p.trace }) step (Reach-Simulates p w e r)
