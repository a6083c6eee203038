-- ===== src/System/Order.antt =====
-- src/obsidian_git_sync/events.py and worker.py: what becomes of the accepted events.
use obsidian_git_sync_mcp.Common.{
  ◌≡◌, refl, sym, subst, ap, ◌∙◌, Bool-cases, inl, inr, none, some, List, [], ◌∷◌, ◌++◌, append-nil,
  append_assoc, final, Run, returned, raised,
}
use obsidian_git_sync_mcp.Text.{codes}
use obsidian_git_sync_mcp.Loop.{iteration, quiet}
use obsidian_git_sync_mcp.Host.{Env}
use obsidian_git_sync_mcp.Events.{SyncEvent, EventQueue, get_nowait, put, sync_sweep}
use obsidian_git_sync_mcp.Config.{Settings}
use obsidian_git_sync_mcp.Worker.{Worker, State, M}
use obsidian_git_sync_mcp.Extension.{Extension, Process, on_worker}
use obsidian_git_sync_mcp.System.{
  Thread, checking, waiting, ended, handling, System, Call, write, change, produce, offered, begin,
  Step, produces, wakes, ticks, enters, leaves, takes, expires, breaks, handles, stops_timer, flags,
  flushes, Reach, here, next, thread_after,
}

-- The event that the worker is at.
abbrev pub in_flight : Thread → List SyncEvent
in_flight checking = []
in_flight waiting = []
in_flight ended = []
in_flight (handling e) = e ∷ []

-- The accepted events are those that are done, the one in work, and those in the queue: each once,
-- in the order in which they came.
abbrev pub IsOrdered : System → Type 0
IsOrdered s = s.accepted ≡ s.handled ++ (in_flight s.thread ++ s.process.ext.events)

events-produce :
    (call : Call) (x : Extension) → (produce call x).events ≡ x.events ++ offered call x
unfolding produce offered put
events-produce (write operation paths) x = elim (Bool-cases x.listening) [
  | inl e ↦ rw e refl
  | inr e ↦ rw e (sym (append-nil x.events))
]
events-produce change x = elim (Bool-cases x.listening) [
  | inl e ↦ rw e refl
  | inr e ↦ rw e (sym (append-nil x.events))
]

-- A method of the worker leaves the queue alone.
pub events-on_worker :
    (w : Worker) (m : M (Unit {0})) (p : Process)
    → (final (on_worker w m p)).ext.events ≡ p.ext.events
unfolding on_worker
events-on_worker w m p = go (m (record { worker = w; trace = p.trace }))
  where
    go :
        (r : Run State (Unit {0}))
        → (final {S = Process} {A = Unit {0}} (elim r [
          | returned a q ↦
              returned a (record { ext = record p.ext { worker = some q.worker }; trace = q.trace })
          | raised e q ↦
              raised e (record { ext = record p.ext { worker = some q.worker }; trace = q.trace })
        ])).ext.events
          ≡ p.ext.events
    go (returned a q) = refl
    go (raised e q) = refl

pub get_nowait-some :
    (q : EventQueue) (e : SyncEvent) (rest : EventQueue)
    → get_nowait q ≡ some (e, rest)
    → q ≡ e ∷ rest
unfolding get_nowait
get_nowait-some [] e rest h = cc
get_nowait-some (x ∷ q) e rest h = cc

pub get_nowait-none : (q : EventQueue) → get_nowait q ≡ none → q ≡ []
unfolding get_nowait
get_nowait-none [] h = refl
get_nowait-none (x ∷ q) h = cc

-- The split of the accepted events at a thread and a queue.
abbrev Splits : System → Thread → EventQueue → Type 0
Splits s thread q = s.accepted ≡ s.handled ++ (in_flight thread ++ q)

-- Behind a round no event is in work.
in_flight-thread_after : (r : Run Process (Unit {0})) → in_flight (thread_after r) ≡ []
unfolding thread_after
in_flight-thread_after (returned a p) = refl
in_flight-thread_after (raised e p) = refl

module _ (s : System) where
  at_thread :
      {thread : Thread} → s.thread ≡ thread → IsOrdered s → Splits s thread s.process.ext.events
  at_thread t h = subst (λ x. Splits s x s.process.ext.events) t h

  done :
      (e : SyncEvent) (w : Worker) (m : M (Unit {0}))
      → Splits s (handling e) s.process.ext.events
      → s.accepted ≡ (s.handled ++ e ∷ []) ++ (final (on_worker w m s.process)).ext.events
  done e w m h = rw (events-on_worker, append_assoc) h

  kept :
      (w : Worker) (m : M (Unit {0}))
      → IsOrdered s
      → Splits s s.thread (final (on_worker w m s.process)).ext.events
  kept w m h = rw events-on_worker h

  -- A put at the end of the queue.
  grown :
      (q more : EventQueue)
      → q ≡ s.process.ext.events ++ more
      → IsOrdered s
      → s.accepted ++ more ≡ s.handled ++ (in_flight s.thread ++ q)
  grown q more e h = rw e (ap (λ xs. xs ++ more) h ∙ simp append_assoc)

module _ {env : Env} {c : Settings} where
  Step-IsOrdered : {s u : System} → Step env c s u → IsOrdered s → IsOrdered u
  unfolding put
  Step-IsOrdered {s} (produces call e) h = rw e (grown s _ _ (events-produce call s.process.ext) h)
  Step-IsOrdered {s} (wakes interval t f e) h = rw e h
  Step-IsOrdered {s} (ticks t e) h = rw e (grown s _ (sync_sweep (codes "timer") ∷ []) refl h)
  Step-IsOrdered {s} (enters t f e) h = rw e (at_thread s t h)
  Step-IsOrdered {s} (leaves t f e) h = rw e (at_thread s t h)
  Step-IsOrdered {s} (takes x rest t g e) h =
      rw e (subst (Splits s waiting) (get_nowait-some _ x rest g) (at_thread s t h))
  Step-IsOrdered {s} (expires w t g x e) h =
      rw (e, in_flight-thread_after)
        (subst (λ y. Splits s y (final (on_worker w (iteration env c quiet) s.process)).ext.events)
          t (kept s w _ h))
  Step-IsOrdered {s} (breaks t e) h = rw e (at_thread s t h)
  Step-IsOrdered {s} (handles x w t g e) h =
      rw (e, in_flight-thread_after) (done s x w _ (at_thread s t h))
  Step-IsOrdered {s} (stops_timer t e) h = rw e h
  Step-IsOrdered {s} (flags t e) h = rw e h
  Step-IsOrdered {s} (flushes w p t x e) h = rw e (kept s w _ h)

  -- In each state that the threads can reach, in whatever order they run: the events that the
  -- producers put are those that the worker has finished, the one that it is at, and those in the
  -- queue, one behind the other, in the order in which they were put. So none is lost, doubled or
  -- overtaken.
  pub Reach-IsOrdered : (p : Process) {s : System} → Reach env c (begin p) s → IsOrdered s
  unfolding begin
  Reach-IsOrdered p here = refl
  Reach-IsOrdered p (next r step) = Step-IsOrdered step (Reach-IsOrdered p r)
