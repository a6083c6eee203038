-- ===== src/System/Simulation.antt =====
-- src/obsidian_git_sync/worker.py: the loop by itself, and what a round of the system is to it.
use obsidian_git_sync_mcp.Common.{
  ◌≡◌, refl, sym, subst, ap, ◌∙◌, Bool-cases, inl, inr, some, List, [], ◌∷◌, ◌++◌, append-nil,
  append_assoc, final, Run, returned, raised,
}
use obsidian_git_sync_mcp.Common.Steps.{seq-returned, seq-eq-returned, eq-returned-final}
use obsidian_git_sync_mcp.Host.{Env}
use obsidian_git_sync_mcp.Events.{SyncEvent}
use obsidian_git_sync_mcp.Config.{Settings}
use obsidian_git_sync_mcp.Worker.{Worker, State, M}
use obsidian_git_sync_mcp.Push.{maybe_push}
use obsidian_git_sync_mcp.Loop.{Poll, arrived, quiet, broke, iteration, run}
use obsidian_git_sync_mcp.Loop.Safety.{iteration-Returns, IsCalm}
use obsidian_git_sync_mcp.Extension.{Extension, Process, on_worker}
use obsidian_git_sync_mcp.System.{
  Thread, Phase, serving, timer_stopped, flagged, flushed, System, Call, write, change, produce,
}

-- The events among the answers of the queue.
abbrev pub arrivals : List Poll → List SyncEvent
arrivals [] = []
arrivals (arrived e ∷ ps) = e ∷ arrivals ps
arrivals (quiet ∷ ps) = arrivals ps
arrivals (broke x ∷ ps) = arrivals ps

arrivals-append : (ps qs : List Poll) → arrivals (ps ++ qs) ≡ arrivals ps ++ arrivals qs
arrivals-append [] qs = refl
arrivals-append (arrived e ∷ ps) qs = ap (◌∷◌ e) (arrivals-append ps qs)
arrivals-append (quiet ∷ ps) qs = arrivals-append ps qs
arrivals-append (broke x ∷ ps) qs = arrivals-append ps qs

-- The process's worker and trace.
abbrev pub Holds : Process → State → Type 0
Holds p st = (p.ext.worker ≡ some st.worker) × (p.trace ≡ st.trace)

pub worker-produce : (call : Call) (x : Extension) → (produce call x).worker ≡ x.worker
unfolding produce
worker-produce (write operation paths) x = elim (Bool-cases x.listening) [
  | inl e ↦ rw e refl
  | inr e ↦ rw e refl
]
worker-produce change x = elim (Bool-cases x.listening) [ inl e ↦ rw e refl | inr e ↦ rw e refl ]

some_inj : {a b : Worker} → some a ≡ some b → a ≡ b
some_inj e = cc

-- A method of the worker does to the process what it does to the worker's state.
pub on_worker-Holds :
    (w : Worker) (m : M (Unit {0})) (p : Process) (st : State)
    → p.ext.worker ≡ some w
    → Holds p st
    → Holds (final (on_worker w m p)) (final (m st))
unfolding on_worker
on_worker-Holds w m p st e (f, g) =
    subst (λ x. Holds (final (on_worker w m p)) (final (m x))) same
      (go (m (record { worker = w; trace = p.trace })))
  where
    same : record { worker = w; trace = p.trace } ≡ st
    same = λ i. record { worker = some_inj (sym e ∙ f) i; trace = g i }

    go :
        (r : Run State (Unit {0}))
        → Holds
            (final {S = Process} {A = Unit {0}} (elim r [
              | returned a q ↦
                  returned a
                    (record { ext = record p.ext { worker = some q.worker }; trace = q.trace })
              | raised x q ↦
                  raised x
                    (record { ext = record p.ext { worker = some q.worker }; trace = q.trace })
            ]))
            (final r)
    go (returned a q) = (refl, refl)
    go (raised x q) = (refl, refl)

module _ (env : Env) (c : Settings) where
  run-append :
      (p : Poll) (ps : List Poll) (s t u : State)
      → run env c ps s ≡ returned tt t
      → iteration env c p t ≡ returned tt u
      → run env c (ps ++ p ∷ []) s ≡ returned tt u
  unfolding run
  run-append p [] s t u h k =
      seq-returned (iteration env c p) (run env c []) (ap (iteration env c p) (state_eq h) ∙ k)
    where
      state_eq : ◌≡◌ {A = Run State (Unit {0})} (returned tt s) (returned tt t) → s ≡ t
      state_eq e = cc
  run-append p (q ∷ ps) s t u h k =
      let (a, (v, (first, rest))) = seq-eq-returned (iteration env c q) (run env c ps) s h in
      seq-returned (iteration env c q) (run env c (ps ++ p ∷ [])) first
      ∙ run-append p ps v t u rest k

  -- Behind the flush, one of the quiet windows is the flush.
  abbrev pub Flushes : Phase → List Poll → Type 0
  Flushes serving ps = Unit
  Flushes timer_stopped ps = Unit
  Flushes flagged ps = Unit
  Flushes flushed ps =
      (before : List Poll) × ((behind : List Poll) × (ps ≡ before ++ quiet ∷ behind))

  -- The worker is where the loop by itself gets on some answers of the queue, in which the events are
  -- those that were handled, and the flush is one more quiet window.
  abbrev pub Simulates : State → System → Type 0
  Simulates s0 s =
      (ps : List Poll) × ((st : State) × ((run env c ps s0 ≡ returned tt st)
          × ((arrivals ps ≡ s.handled) × (Holds s.process st × Flushes s.phase ps))))

  Flushes-append :
      (phase : Phase) (ps : List Poll) (p : Poll) → Flushes phase ps → Flushes phase (ps ++ p ∷ [])
  Flushes-append serving ps p f = tt
  Flushes-append timer_stopped ps p f = tt
  Flushes-append flagged ps p f = tt
  Flushes-append flushed ps p (before, (behind, e)) =
      (before, (behind ++ p ∷ [], rw e (append_assoc before (quiet ∷ behind) (p ∷ []))))

  module _ (s0 : State) (s : System) (sim : Simulates s0 s) where
    -- A round of the loop, on the process and on the worker by itself.
    round :
        (p : Poll) (w : Worker) (handled : List SyncEvent)
        → IsCalm p
        → s.process.ext.worker ≡ some w
        → s.handled ++ arrivals (p ∷ []) ≡ handled
        → (ps : List Poll) × ((st : State) × ((run env c (ps ++ p ∷ []) s0 ≡ returned tt st)
              × ((arrivals (ps ++ p ∷ []) ≡ handled)
                  × (Holds (final (on_worker w (iteration env c p) s.process)) st
                      × Flushes s.phase ps))))
    round p w handled calm x same =
        let (ps, (st, (r, (a, (h, f))))) = sim in
        let st' = final (iteration env c p st) in
        (
          ps,
          (
            st',
            (
              run-append p ps s0 st st' r
                  (eq-returned-final (iteration env c p st) (iteration-Returns env c p st calm)),
              (
                arrivals-append ps (p ∷ []) ∙ (ap (λ es. es ++ arrivals (p ∷ [])) a ∙ same),
                (on_worker-Holds w (iteration env c p) s.process st x h, f),
              ),
            ),
          ),
        )

    pub rounds :
        (p : Poll) (w : Worker) (thread : Thread) (handled : List SyncEvent)
        → IsCalm p
        → s.process.ext.worker ≡ some w
        → s.handled ++ arrivals (p ∷ []) ≡ handled
        → Simulates s0 (record s {
          process = final (on_worker w (iteration env c p) s.process);
          thread = thread;
          handled = handled;
        })
    rounds p w thread handled calm x same =
        let (ps, (st, (r, (a, (h, f))))) = round p w handled calm x same in
        (ps ++ p ∷ [], (st, (r, (a, (h, Flushes-append s.phase ps p f)))))

    -- The flush is a quiet window.
    pub flush :
        (w : Worker)
        → s.process.ext.worker ≡ some w
        → Simulates s0
            (record s { process = final (on_worker w (maybe_push env) s.process); phase = flushed })
    unfolding iteration
    flush w x =
        let (ps, (st, (r, (a, (h, f))))) = round quiet w s.handled tt x (append-nil s.handled) in
        (ps ++ quiet ∷ [], (st, (r, (a, (h, (ps, ([], refl)))))))

    -- A step that leaves the worker alone.
    pub moves :
        {u v : System}
        → v ≡ u
        → u.process.ext.worker ≡ s.process.ext.worker
        → u.process.trace ≡ s.process.trace
        → u.handled ≡ s.handled
        → ((ps : List Poll) → Flushes s.phase ps → Flushes u.phase ps)
        → Simulates s0 v
    moves e w t d k =
        let (ps, (st, (r, (a, (h, f))))) = sim in
        rw e (ps, (st, (r, (a ∙ sym d, ((w ∙ h.0, t ∙ h.1), k ps f)))))
