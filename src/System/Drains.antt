-- ===== src/System/Drains.antt =====
-- src/obsidian_git_sync/worker.py: that the worker can always get through the queue.
use obsidian_git_sync_mcp.Common.{
  List, map, Returns, subst, ◌≡◌, refl, sym, ◌∙◌, false, some, [], ◌∷◌, ◌++◌, append-nil,
  append_assoc, final, Run, returned, raised,
}
use obsidian_git_sync_mcp.Host.{Env}
use obsidian_git_sync_mcp.Events.{SyncEvent, EventQueue, get_nowait}
use obsidian_git_sync_mcp.Config.{Settings}
use obsidian_git_sync_mcp.Worker.{Worker, State, M}
use obsidian_git_sync_mcp.Common.Steps.{final-seq}
use obsidian_git_sync_mcp.Loop.{arrived, iteration, run}
use obsidian_git_sync_mcp.Loop.Safety.{iteration-Returns}
use obsidian_git_sync_mcp.System.Simulation.{Holds, on_worker-Holds}
use obsidian_git_sync_mcp.Extension.{Process, on_worker}
use obsidian_git_sync_mcp.System.{
  thread_after, checking, System, enters, takes, handles, Reach, here, next,
}
use obsidian_git_sync_mcp.System.Order.{events-on_worker}

pub some_worker :
    (w : Worker) (m : M (Unit {0})) (p : Process)
    → (v : Worker) × ((final (on_worker w m p)).ext.worker ≡ some v)
unfolding on_worker
some_worker w m p = go (m (record { worker = w; trace = p.trace }))
  where
    go :
        (r : Run State (Unit {0}))
        → (v : Worker) × ((final {S = Process} {A = Unit {0}} (elim r [
          | returned a q ↦
              returned a (record { ext = record p.ext { worker = some q.worker }; trace = q.trace })
          | raised e q ↦
              raised e (record { ext = record p.ext { worker = some q.worker }; trace = q.trace })
        ])).ext.worker
            ≡ some v)
    go (returned a q) = (q.worker, refl)
    go (raised e q) = (q.worker, refl)

get_nowait-cons :
    (q : EventQueue) (e : SyncEvent) (rest : EventQueue)
    → q ≡ e ∷ rest
    → get_nowait q ≡ some (e, rest)
unfolding get_nowait
get_nowait-cons q e rest h = rw h refl

module _ (env : Env) (c : Settings) where
  unfoldable pub Reach-trans :
      {s t u : System} → Reach env c s t → Reach env c t u → Reach env c s u
  Reach-trans r here = r
  Reach-trans r (next q step) = next (Reach-trans r q) step

  -- A round that returns leads back to the test of the flag.
  pub thread_after-checking :
      (w : Worker) (m : M (Unit {0})) (p : Process)
      → Returns (m (record { worker = w; trace = p.trace }))
      → thread_after (on_worker w m p) ≡ checking
  unfolding on_worker thread_after
  thread_after-checking w m p = go (m (record { worker = w; trace = p.trace }))
    where
      go :
          (r : Run State (Unit {0}))
          → Returns r
          → thread_after (elim r [
            | returned a q ↦
                returned a
                  (record { ext = record p.ext { worker = some q.worker }; trace = q.trace })
            | raised e q ↦
                raised e (record { ext = record p.ext { worker = some q.worker }; trace = q.trace })
          ])
            ≡ checking
      go (returned a q) h = refl
      go (raised e q) h = absurd h

  -- The worker at the test of its flag, which is not set; the process has this worker and history.
  abbrev pub IsReady : State → System → Type 0
  IsReady st s = Holds s.process st × ((s.thread ≡ checking) × (s.stop ≡ false))

  -- The system behind the work on the queue's first event.
  first_done : System → Worker → SyncEvent → EventQueue → System
  first_done s w e rest =
      let taken = record s.process { ext = record s.process.ext { events = rest } } in
      record s {
        process = final (on_worker w (iteration env c (arrived e)) taken);
        thread = thread_after (on_worker w (iteration env c (arrived e)) taken);
        handled = s.handled ++ e ∷ [];
      }

  Reach-first_done :
      (s : System) (w : Worker) (e : SyncEvent) (rest : EventQueue)
      → s.process.ext.worker ≡ some w
      → s.thread ≡ checking
      → s.stop ≡ false
      → s.process.ext.events ≡ e ∷ rest
      → Reach env c s (first_done s w e rest)
  unfolding first_done
  Reach-first_done s w e rest x t f q =
      next
        (next (next here (enters t f refl)) (takes e rest refl (get_nowait-cons _ e rest q) refl))
        (handles e w refl x refl)

  -- Behind the loop's rounds on these events, from this state on.
  abbrev pub worked_off : State → List SyncEvent → State
  worked_off st q = final (run env c (map arrived q) st)

  drains :
      (q : EventQueue) (s : System) (st : State)
      → IsReady st s
      → s.process.ext.events ≡ q
      → (u : System) × (Reach env c s u
          × (IsReady (worked_off st q) u
              × ((u.process.ext.events ≡ []) × (u.handled ≡ s.handled ++ q))))
  unfolding first_done run
  drains [] s st ready h = (s, (here, (ready, (h, sym (append-nil s.handled)))))
  drains (e ∷ rest) s st ((x, y), (t, f)) h =
      let w = st.worker in
      let taken = record s.process { ext = record s.process.ext { events = rest } } in
      let m = iteration env c (arrived e) in
      let (u, (r, (ready, (empty, d)))) =
        drains rest (first_done s w e rest) (final (m st))
          (
            on_worker-Holds w m taken st x (x, y),
            (
              thread_after-checking w m taken (
                  iteration-Returns env c (arrived e) (record { worker = w; trace = taken.trace })
                    tt),
              f,
            ),
          )
          (events-on_worker w m taken) in
      (
        u,
        (
          Reach-trans (Reach-first_done s w e rest x t f h) r,
          (
            subst (λ z. IsReady z u)
                (sym (
                  final-seq m (run env c (map arrived rest)) st
                    (iteration-Returns env c (arrived e) st tt)))
                ready,
            (empty, d ∙ append_assoc s.handled (e ∷ []) rest),
          ),
        ),
      )

  -- While the stop flag is not set, a worker between two events can go on, whatever git and the
  -- disk do, until the queue is empty and the worker is between two events again; the events that
  -- it took on the way are those that were queued, in their order, and its record and the whole
  -- history are then what the loop makes of exactly these events, one round each, from where it
  -- was.
  pub Reach-drained :
      (s : System) (st : State)
      → IsReady st s
      → (u : System) × (Reach env c s u
          × (IsReady (worked_off st s.process.ext.events) u
              × ((u.process.ext.events ≡ []) × (u.handled ≡ s.handled ++ s.process.ext.events))))
  Reach-drained s st ready = drains s.process.ext.events s st ready refl
