-- ===== src/Loop/Safety.antt =====
-- src/obsidian_git_sync/worker.py: the worker's whole life, over any answers of the queue.
use obsidian_git_sync_mcp.Common.{
  Bool, true, false, not, ◌||◌, List, [], ◌∷◌, pure, if◌then◌else◌, Exn, timeout_expired, Returns,
  final, Bool-cases, inl, inr, catch, All,
}
use obsidian_git_sync_mcp.Common.Rules.{Keeps, bind, seq, handle, Returns-catch, Returns-seq}
use obsidian_git_sync_mcp.Text.{nonempty}
use obsidian_git_sync_mcp.Host
use obsidian_git_sync_mcp.Host.{Env}
use obsidian_git_sync_mcp.Events.{SyncEvent}
use obsidian_git_sync_mcp.Config.{Settings}
use obsidian_git_sync_mcp.Worker.{State, M, log, dispatch, handle_event}
use obsidian_git_sync_mcp.Worker.Tracking.{IsTracked}
use obsidian_git_sync_mcp.Worker.Cycle.{handle_event-IsTracked}
use obsidian_git_sync_mcp.Push.{push_overdue, maybe_push, push_once}
use obsidian_git_sync_mcp.Push.Tracking.{push_overdue-IsTracked, maybe_push-IsTracked}
use obsidian_git_sync_mcp.Loop.{Poll, arrived, quiet, broke, iteration, run, lifetime}

-- The queue hands out an event or is quiet.
abbrev pub IsCalm : Poll → Type 0
IsCalm (arrived event) = Unit
IsCalm quiet = Unit
IsCalm (broke e) = ⊥

module _ (env : Env) (c : Settings) where
  overdue-IsTracked :
      (overdue : Bool) → Keeps IsTracked (if overdue then maybe_push env else pure tt)
  overdue-IsTracked true s i = maybe_push-IsTracked env s i
  overdue-IsTracked false s i = i

  iteration-IsTracked : (p : Poll) → Keeps IsTracked (iteration env c p)
  unfolding iteration
  iteration-IsTracked (arrived event) s i =
      seq IsTracked (handle_event env c event) _ (handle_event-IsTracked env c event)
        (bind IsTracked (push_overdue env) (λ overdue. if overdue then maybe_push env else pure tt)
          (push_overdue-IsTracked env) overdue-IsTracked)
        s i
  iteration-IsTracked quiet s i = maybe_push-IsTracked env s i
  iteration-IsTracked (broke e) s i = i

  pub run-IsTracked : (polls : List Poll) → Keeps IsTracked (run env c polls)
  unfolding run
  run-IsTracked [] s i = i
  run-IsTracked (p ∷ polls) s i =
      seq IsTracked (iteration env c p) (run env c polls) (iteration-IsTracked p)
        (run-IsTracked polls) s i

  -- Whatever git, the file system and the queue do, in whatever order: if at the start each commit
  -- that no successful push has followed is marked as unpushed, then so it is after the loop and the
  -- final flush.
  pub lifetime-IsTracked :
      (polls : List Poll) (s : State) → IsTracked s → IsTracked (final (lifetime env c polls s))
  unfolding lifetime
  lifetime-IsTracked polls =
      seq IsTracked (catch (run env c polls) (λ e. pure tt)) (maybe_push env)
        (handle IsTracked (run env c polls) (λ e. pure tt) (run-IsTracked polls) (λ e s i. i))
        (maybe_push-IsTracked env)

  pub handle_event-Returns : (event : SyncEvent) (s : State) → Returns (handle_event env c event s)
  unfolding handle_event
  handle_event-Returns event s =
      Returns-catch (dispatch env c event) (λ e. log (Host.handling_failed event.kind)) s
        (λ e t. tt)

  swallowed-Returns :
      (e : Exn) (s : State)
      → Returns (
          (elim e as (λ x. M (Unit {0})) [
            | timeout_expired ↦ pure tt
            | other ↦ log Host.push_cycle_failed
          ])
            s)
  swallowed-Returns timeout_expired s = tt
  swallowed-Returns _ s = tt

  pub maybe_push-Returns : (s : State) → Returns (maybe_push env s)
  unfolding maybe_push
  maybe_push-Returns s =
      elim (Bool-cases (not s.worker.unpushed || not (nonempty s.worker.remote))) [
        | inl e ↦ rw (e, maybe_push) tt
        | inr e ↦
            rw (e, maybe_push)
              (Returns-catch (push_once env)
                (λ x. elim x [ timeout_expired ↦ pure tt | other ↦ log Host.push_cycle_failed ]) s
                swallowed-Returns)
      ]

  overdue-Returns :
      (overdue : Bool) (s : State) → Returns ((if overdue then maybe_push env else pure tt) s)
  overdue-Returns true s = maybe_push-Returns s
  overdue-Returns false s = tt

  pub iteration-Returns : (p : Poll) (s : State) → IsCalm p → Returns (iteration env c p s)
  unfolding iteration push_overdue
  iteration-Returns (arrived event) s h =
      Returns-seq (handle_event env c event) _ s (handle_event-Returns event s)
        (λ t. overdue-Returns _ _)
  iteration-Returns quiet s h = maybe_push-Returns s
  iteration-Returns (broke e) s h = h

  -- As long as the queue's `get` gives events or is quiet, no failing, hanging or missing git, no
  -- broken note and no lost heartbeat ends the loop with an exception: it runs through all rounds.
  pub run-Returns : (polls : List Poll) (s : State) → All IsCalm polls → Returns (run env c polls s)
  unfolding run
  run-Returns [] s h = tt
  run-Returns (p ∷ polls) s (h, hs) =
      Returns-seq (iteration env c p) (run env c polls) s (iteration-Returns p s h)
        (λ t. run-Returns polls t hs)
