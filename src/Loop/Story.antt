-- ===== src/Loop/Story.antt =====
-- src/obsidian_git_sync/worker.py: the commands of the worker's whole life, told by what its queue
-- answered.
use obsidian_git_sync_mcp.Common.{
  ◌≡◌, refl, sym, subst, ap, ◌∙◌, Bool, true, false, List, [], ◌∷◌, ◌++◌, if◌then◌else◌, Run,
  returned, raised, final, pure, ◌>>=◌,
}
use obsidian_git_sync_mcp.Common.Steps.{final-seq}
use obsidian_git_sync_mcp.Host.{Env, Trace, read_clock}
use obsidian_git_sync_mcp.Numeral.{ge_float, sub_ℕ}
use obsidian_git_sync_mcp.Events.{SyncEvent}
use obsidian_git_sync_mcp.Config.{Settings}
use obsidian_git_sync_mcp.History.{Command, commands}
use obsidian_git_sync_mcp.Worker.{State, handle_event}
use obsidian_git_sync_mcp.Worker.Story.{EventWork, handle_event-Worked}
use obsidian_git_sync_mcp.Push.{push_overdue, now, maybe_push}
use obsidian_git_sync_mcp.Push.Grammar.{IsPush, Cycle}
use obsidian_git_sync_mcp.Push.Sequence.{maybe_push-Cycle}
use obsidian_git_sync_mcp.Loop.{Poll, arrived, quiet, broke, iteration, run, lifetime}
use obsidian_git_sync_mcp.Loop.Safety.{iteration-Returns, handle_event-Returns}

-- The rounds of the loop between two traces: an event is worked on, and a push cycle may follow; a
-- quiet window has a push cycle, or none; and an exception of `get` is the end.
pub data Rounds (env : Env) : Trace → List Poll → Trace → Type 0 where
  over : {t : Trace} → Rounds env t [] t
  event :
      {t u v : Trace} {e : SyncEvent} {ps : List Poll} (work push : List Command)
      → EventWork env t e work
      → IsPush push
      → commands u ≡ push ++ (work ++ commands t)
      → Rounds env u ps v
      → Rounds env t (arrived e ∷ ps) v
  window :
      {t u v : Trace} {ps : List Poll} (push : List Command)
      → IsPush push
      → commands u ≡ push ++ commands t
      → Rounds env u ps v
      → Rounds env t (quiet ∷ ps) v
  broken : {t : Trace} {x : _} {ps : List Poll} → Rounds env t (broke x ∷ ps) t

module _ (env : Env) (c : Settings) where
  -- The push that may follow the work on an event.
  pub overdue-Cycle :
      (s : State)
      → Cycle s.trace
          (final ((do overdue ← push_overdue env; if overdue then maybe_push env else pure tt) s))
  unfolding push_overdue now commands
  overdue-Cycle s =
      due (ge_float (sub_ℕ (env.monotonic s.trace) s.worker.last_push) s.worker.push_max_interval)
    where
      u : State
      u = record s { trace = read_clock ∷ s.trace }

      due :
          (overdue : Bool) → Cycle s.trace (final ((if overdue then maybe_push env else pure tt) u))
      due true = maybe_push-Cycle env u
      due false = ([], (refl, (tt, tt)))

  iteration_event :
      (e : SyncEvent) (s : State)
      → (work : List Command) × ((push : List Command) × (EventWork env s.trace e work
            × (IsPush push
                × (commands (final (iteration env c (arrived e) s)).trace
                    ≡ push ++ (work ++ commands s.trace)))))
  unfolding iteration
  iteration_event e s =
      let (work, (f, w)) = handle_event-Worked env c e s in
      let u = final (handle_event env c e s) in
      let (push, (g, k)) = overdue-Cycle u in
      (
        work,
        (
          push,
          (
            w,
            (
              k,
              ap (λ (x : State). commands x.trace)
                    (final-seq (handle_event env c e)
                      (do overdue ← push_overdue env; if overdue then maybe_push env else pure tt) s
                      (handle_event-Returns env c e s))
                  ∙ (g ∙ ap (λ cs. push ++ cs) f),
            ),
          ),
        ),
      )

  run-Rounds : (ps : List Poll) (s : State) → Rounds env s.trace ps (final (run env c ps s)).trace
  unfolding run iteration
  run-Rounds [] s = over
  run-Rounds (arrived e ∷ ps) s =
      let (work, (push, (w, (k, f)))) = iteration_event e s in
      subst (λ (x : State). Rounds env s.trace (arrived e ∷ ps) x.trace)
        (sym (
          final-seq (iteration env c (arrived e)) (run env c ps) s
            (iteration-Returns env c (arrived e) s tt)))
        (event work push w k f (run-Rounds ps (final (iteration env c (arrived e) s))))
  run-Rounds (quiet ∷ ps) s =
      let (push, (f, k)) = maybe_push-Cycle env s in
      subst (λ (x : State). Rounds env s.trace (quiet ∷ ps) x.trace)
        (sym
          (final-seq (iteration env c quiet) (run env c ps) s (iteration-Returns env c quiet s tt)))
        (window push k f (run-Rounds ps (final (maybe_push env s))))
  run-Rounds (broke x ∷ ps) s = broken

  -- Whatever git, the disk and the queue do, the commands of the worker's life are, in their order:
  -- for each write that names paths and for each sweep its staging, then the question for staged
  -- changes, then, where that finds some, the same question again, and then, where that finds some
  -- too, the commit, and no less, unless a command fails or hangs, which ends the work there with
  -- at most the questions of its report; for any other event nothing; behind each event, for each
  -- quiet window and for the final flush a push cycle or none, whole or ended by the question for
  -- the branch or by a command from which git did not exit; and an exception of `get` ends the
  -- loop. So each commit has the message of its event (the operation and paths of a write, the time
  -- of a sweep) and comes behind the staging of that event's paths, or of all for a sweep; and the
  -- commits stand in the order of the events, one for each event at most.
  pub lifetime-Rounds :
      (ps : List Poll) (s : State)
      → (u : Trace) × (Rounds env s.trace ps u × Cycle u (final (lifetime env c ps s)))
  unfolding lifetime
  lifetime-Rounds ps s =
      let v = final (run env c ps s) in (v.trace, (run-Rounds ps s, flushed (run env c ps s)))
    where
      flushed :
          (r : Run State (Unit {0}))
          → Cycle (final r).trace (
              final {S = State} {A = Unit {0}}
                (elim (elim r as (λ x. Run State (Unit {0})) [
                  | returned a t ↦ returned a t
                  | raised x t ↦ returned tt t
                ]) [ returned a t ↦ maybe_push env t | raised x t ↦ raised x t ]))
      flushed (returned a t) = maybe_push-Cycle env t
      flushed (raised x t) = maybe_push-Cycle env t
