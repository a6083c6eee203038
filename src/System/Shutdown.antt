-- ===== src/System/Shutdown.antt =====
-- src/obsidian_git_sync/extension.py and worker.py: that a shutdown can always come to its end.
use obsidian_git_sync_mcp.Common.{
  ap, ◌⊎◌, ℕ, suc, arith, ◌≡◌, ◌≢◌, refl, sym, ◌∙◌, true, some, Option-cases, inl, inr,
}
use obsidian_git_sync_mcp.Host.{Env}
use obsidian_git_sync_mcp.Events.{SyncEvent, get_nowait}
use obsidian_git_sync_mcp.Config.{Settings}
use obsidian_git_sync_mcp.Worker.{Worker}
use obsidian_git_sync_mcp.Loop.{arrived, quiet, iteration}
use obsidian_git_sync_mcp.Loop.Safety.{iteration-Returns}
use obsidian_git_sync_mcp.Extension.{Process}
use obsidian_git_sync_mcp.System.{
  Thread, checking, waiting, ended, handling, Phase, serving, timer_stopped, flagged, flushed,
  System, begin, Step, produces, wakes, ticks, enters, leaves, takes, expires, breaks, handles,
  stops_timer, flags, flushes, Reach, here, next,
}
use obsidian_git_sync_mcp.System.Drains.{some_worker, Reach-trans, thread_after-checking}
use obsidian_git_sync_mcp.System.Sequential.{Reach-Simulates}

abbrev IsLate : System → Type 0
IsLate s = (s.phase ≡ flagged) ⊎ (s.phase ≡ flushed)

-- Behind `_stop.set()` the flag is set.
abbrev IsFlagged : System → Type 0
IsFlagged s = IsLate s → s.stop ≡ true

too_early :
    (s : System) (phase : Phase) → s.phase ≡ phase → flagged ≢ phase → flushed ≢ phase → ¬ IsLate s
too_early s phase e n m (inl k) = n (sym k ∙ e)
too_early s phase e n m (inr k) = m (sym k ∙ e)

flagged_ne : flagged ≢ timer_stopped
flagged_ne e = cc

flushed_ne : flushed ≢ timer_stopped
flushed_ne e = cc

serving_flagged_ne : flagged ≢ serving
serving_flagged_ne e = cc

serving_flushed_ne : flushed ≢ serving
serving_flushed_ne e = cc

ended_ne : (e : SyncEvent) → ended ≢ handling e
ended_ne e k = cc

module _ (env : Env) (c : Settings) where
  Step-IsFlagged : {s u : System} → Step env c s u → IsFlagged s → IsFlagged u
  Step-IsFlagged (produces call e) h = rw e h
  Step-IsFlagged (wakes interval t f e) h = rw e h
  Step-IsFlagged (ticks t e) h = rw e h
  Step-IsFlagged (enters t f e) h = rw e h
  Step-IsFlagged (leaves t f e) h = rw e h
  Step-IsFlagged (takes x rest t g e) h = rw e h
  Step-IsFlagged (expires w t g x e) h = rw e h
  Step-IsFlagged (breaks t e) h = rw e h
  Step-IsFlagged (handles x w t g e) h = rw e h
  Step-IsFlagged {s} {u} (stops_timer t e) h = λ late.
      absurd (too_early u timer_stopped (ap (λ (x : System). x.phase) e) flagged_ne flushed_ne late)
  Step-IsFlagged (flags t e) h = rw e (λ k. refl)
  Step-IsFlagged (flushes w p t x e) h = rw e (λ k. h (inl p))

  Reach-IsFlagged : (p : Process) {s : System} → Reach env c (begin p) s → IsFlagged s
  unfolding begin
  Reach-IsFlagged p here =
      λ late. absurd (too_early (begin p) serving refl serving_flagged_ne serving_flushed_ne late)
  Reach-IsFlagged p (next r step) = Step-IsFlagged step (Reach-IsFlagged p r)

  -- How often `get` raised in a run, other than for want of an event.
  abbrev pub broken : {s u : System} → Reach env c s u → ℕ
  broken here = 0
  broken (next r (breaks t e)) = suc (broken r)
  broken (next r (produces call e)) = broken r
  broken (next r (wakes interval t f e)) = broken r
  broken (next r (ticks t e)) = broken r
  broken (next r (enters t f e)) = broken r
  broken (next r (leaves t f e)) = broken r
  broken (next r (takes x rest t g e)) = broken r
  broken (next r (expires w t g x e)) = broken r
  broken (next r (handles x w t g e)) = broken r
  broken (next r (stops_timer t e)) = broken r
  broken (next r (flags t e)) = broken r
  broken (next r (flushes w p t x e)) = broken r

  broken_trans :
      {s t u : System} (q : Reach env c s t) (r : Reach env c t u)
      → broken q ≡ 0
      → broken r ≡ 0
      → broken (Reach-trans env c q r) ≡ 0
  unfolding Reach-trans
  broken_trans q here h k = h
  broken_trans q (next r (breaks t e)) h k = absurd (omega (arith, k))
  broken_trans q (next r (produces call e)) h k = broken_trans q r h k
  broken_trans q (next r (wakes interval t f e)) h k = broken_trans q r h k
  broken_trans q (next r (ticks t e)) h k = broken_trans q r h k
  broken_trans q (next r (enters t f e)) h k = broken_trans q r h k
  broken_trans q (next r (leaves t f e)) h k = broken_trans q r h k
  broken_trans q (next r (takes x rest t g e)) h k = broken_trans q r h k
  broken_trans q (next r (expires w t g x e)) h k = broken_trans q r h k
  broken_trans q (next r (handles x w t g e)) h k = broken_trans q r h k
  broken_trans q (next r (stops_timer t e)) h k = broken_trans q r h k
  broken_trans q (next r (flags t e)) h k = broken_trans q r h k
  broken_trans q (next r (flushes w p t x e)) h k = broken_trans q r h k

  -- A state behind the flush in which the worker's thread has ended can be reached, and without an
  -- exception of `get`.
  abbrev pub Ends : System → Type 0
  Ends s =
      (u : System) × ((r : Reach env c s u) × ((broken r ≡ 0)
          × ((u.phase ≡ flushed) × (u.thread ≡ ended))))

  after : {s t : System} (step : Step env c s t) → broken (next here step) ≡ 0 → Ends t → Ends s
  after step b (u, (r, (k, e))) =
      (u, (Reach-trans env c (next here step) r, (broken_trans (next here step) r b k, e)))

  from_ended :
      (s : System) (w : Worker)
      → IsLate s
      → s.process.ext.worker ≡ some w
      → s.thread ≡ ended
      → Ends s
  from_ended s w (inl flag) x t =
      (_, (next here (flushes w flag (λ e k. ended_ne e (sym t ∙ k)) x refl), (refl, (refl, t))))
  from_ended s w (inr done) x t = (s, (here, (refl, (done, t))))

  from_checking :
      (s : System) (w : Worker)
      → IsLate s
      → s.stop ≡ true
      → s.process.ext.worker ≡ some w
      → s.thread ≡ checking
      → Ends s
  from_checking s w p f x t =
      after (leaves t f refl) refl (from_ended (record s { thread = ended }) w p x refl)

  from_handling :
      (s : System) (w : Worker) (e : SyncEvent)
      → IsLate s
      → s.stop ≡ true
      → s.process.ext.worker ≡ some w
      → s.thread ≡ handling e
      → Ends s
  from_handling s w e p f x t =
      let (v, y) = some_worker w (iteration env c (arrived e)) s.process in
      after (handles e w t x refl) refl (
        from_checking _ v p f y (
          thread_after-checking env c w (iteration env c (arrived e)) s.process
            (iteration-Returns env c (arrived e) _ tt)))

  from_waiting :
      (s : System) (w : Worker)
      → IsLate s
      → s.stop ≡ true
      → s.process.ext.worker ≡ some w
      → s.thread ≡ waiting
      → Ends s
  from_waiting s w p f x t = elim (Option-cases (get_nowait s.process.ext.events)) [
    | inl g ↦
        let (v, y) = some_worker w (iteration env c quiet) s.process in
        after (expires w t g x refl) refl (
          from_checking _ v p f y (
            thread_after-checking env c w (iteration env c quiet) s.process
              (iteration-Returns env c quiet _ tt)))
    | inr ((e, rest), g) ↦ after (takes e rest t g refl) refl (from_handling _ w e p f x refl)
  ]

  from_flagged :
      (s : System) (w : Worker) (thread : Thread)
      → IsLate s
      → s.stop ≡ true
      → s.process.ext.worker ≡ some w
      → s.thread ≡ thread
      → Ends s
  from_flagged s w checking p f x t = from_checking s w p f x t
  from_flagged s w waiting p f x t = from_waiting s w p f x t
  from_flagged s w ended p f x t = from_ended s w p x t
  from_flagged s w (handling e) p f x t = from_handling s w e p f x t

  -- The rest of `shutdown`, from each of its phases.
  from_phase :
      (s : System) (w : Worker) (phase : Phase)
      → s.phase ≡ phase
      → IsFlagged s
      → s.process.ext.worker ≡ some w
      → Ends s
  from_phase s w flushed p f x = from_flagged s w s.thread (inr p) (f (inr p)) x refl
  from_phase s w flagged p f x = from_flagged s w s.thread (inl p) (f (inl p)) x refl
  from_phase s w timer_stopped p f x =
      after (flags p refl) refl
        (from_flagged (record s { stop = true; phase = flagged }) w s.thread (inl refl) refl x refl)
  from_phase s w serving p f x =
      let t : System = record s {
        process = record s.process { ext = record s.process.ext { timer_stop = true } };
        phase = timer_stopped;
      } in
      after (stops_timer p refl) refl (
        after (flags refl refl) refl (
          from_flagged (record t { stop = true; phase = flagged }) w t.thread (inl refl) refl x
            refl))

  worker_of :
      (p : Process) (w : Worker)
      → p.ext.worker ≡ some w
      → {s : System} → Reach env c (begin p) s
      → (v : Worker) × (s.process.ext.worker ≡ some v)
  worker_of p w e {s} r =
      let (ps, (st, (runs, (a, (h, f))))) = Reach-Simulates env c p w e r in (st.worker, h.0)

  -- However the threads have interleaved, with the flush behind the thread's end or, where the join
  -- runs out of time, beside a thread that waits, but never overlapping a round: shutdown and the
  -- worker's thread can come to their ends, whatever git and the disk do. From each state that is
  -- reached, a run in which `get` raises nothing but `queue.Empty` leads to a state in which the
  -- thread has ended and shutdown is behind its flush.
  pub Reach-Ends :
      (p : Process) (w : Worker)
      → p.ext.worker ≡ some w
      → {s : System} → Reach env c (begin p) s
      → Ends s
  Reach-Ends p w e {s} r =
      let (v, x) = worker_of p w e r in from_phase s v s.phase refl (Reach-IsFlagged p r) x
