-- ===== src/System/Stops.antt =====
-- src/obsidian_git_sync/worker.py: how soon the worker's thread ends once `stop` has set its flag.
use obsidian_git_sync_mcp.Common.{ℕ, ◌+◌, ◌≤◌, ◌≡◌, refl, true, arith, Run, returned, raised}
use obsidian_git_sync_mcp.Host.{Env}
use obsidian_git_sync_mcp.Config.{Settings}
use obsidian_git_sync_mcp.Extension.{Process, on_worker}
use obsidian_git_sync_mcp.Loop.{arrived, quiet, iteration}
use obsidian_git_sync_mcp.System.{
  Thread, checking, waiting, ended, handling, System, Step, produces, wakes, ticks, enters, leaves,
  takes, expires, breaks, handles, stops_timer, flags, flushes, Reach, here, next, thread_after,
}

-- The steps that the thread has before it at most, once the flag is set.
abbrev pub left : Thread → ℕ
left waiting = 3
left (handling e) = 2
left checking = 1
left ended = 0

left_le : (thread : Thread) → left thread ≤ 3
left_le waiting = omega arith
left_le (handling e) = omega arith
left_le checking = omega arith
left_le ended = omega arith

left-thread_after : (r : Run Process (Unit {0})) → left (thread_after r) ≤ 1
unfolding thread_after
left-thread_after (returned a p) = omega arith
left-thread_after (raised e p) = omega arith

module _ {env : Env} {c : Settings} where
  -- Is the step one of the worker's thread?
  abbrev own : {s u : System} → Step env c s u → ℕ
  own (enters t f e) = 1
  own (leaves t f e) = 1
  own (takes x rest t g e) = 1
  own (expires w t g x e) = 1
  own (breaks t e) = 1
  own (handles x w t g e) = 1
  own (produces call e) = 0
  own (wakes interval t f e) = 0
  own (ticks t e) = 0
  own (stops_timer t e) = 0
  own (flags t e) = 0
  own (flushes w p t x e) = 0

  -- How many steps of a run are the thread's.
  abbrev pub worked : {s u : System} → Reach env c s u → ℕ
  worked here = 0
  worked (next r step) = own step + worked r

  Step-left :
      {s u : System} (step : Step env c s u)
      → s.stop ≡ true
      → (u.stop ≡ true) × (own step + left u.thread ≤ left s.thread)
  Step-left (produces call e) h = rw e (h, omega arith)
  Step-left (wakes interval t f e) h = rw e (h, omega arith)
  Step-left (ticks t e) h = rw e (h, omega arith)
  Step-left (enters t f e) h = absurd (cc)
  Step-left (leaves t f e) h = rw (e, t) (h, omega arith)
  Step-left (takes x rest t g e) h = rw (e, t) (h, omega arith)
  Step-left {s} (expires w t g x e) h =
      rw (e, t)
        (h, omega (arith, left-thread_after (on_worker w (iteration env c quiet) s.process)))
  Step-left (breaks t e) h = rw (e, t) (h, omega arith)
  Step-left {s} (handles x w t g e) h =
      rw (e, t)
        (h, omega (arith, left-thread_after (on_worker w (iteration env c (arrived x)) s.process)))
  Step-left (stops_timer t e) h = rw e (h, omega arith)
  Step-left (flags t e) h = rw e (refl, omega arith)
  Step-left (flushes w p t x e) h = rw e (h, omega arith)

  stopped :
      {s u : System} (r : Reach env c s u)
      → s.stop ≡ true
      → (u.stop ≡ true) × (worked r + left u.thread ≤ left s.thread)
  stopped here h = (h, omega arith)
  stopped (next r step) h =
      let (f, le) = stopped r h in let (g, le') = Step-left step f in (g, omega (arith, le, le'))

  -- In each run from a state in which the flag is set, whatever is put into the queue meanwhile, the
  -- worker's thread makes three steps at most (it takes an event, handles it and ends); the steps that
  -- it has left shrink with each.
  pub Reach-stops :
      {s u : System} (r : Reach env c s u)
      → s.stop ≡ true
      → (worked r + left u.thread ≤ left s.thread) × (worked r ≤ 3)
  Reach-stops {s} r h = let (f, le) = stopped r h in (le, omega (arith, le, left_le s.thread))
