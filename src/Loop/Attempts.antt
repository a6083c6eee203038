-- ===== src/Loop/Attempts.antt =====
-- src/obsidian_git_sync/worker.py: how long a commit may wait for an attempt to push it.
use obsidian_git_sync_mcp.Common.{
  ◌≡◌, sym, subst, true, List, ◌∷◌, ◌++◌, if◌then◌else◌, final, pure, ◌>>=◌,
}
use obsidian_git_sync_mcp.Common.Steps.{final-seq}
use obsidian_git_sync_mcp.Numeral.{ge_float, sub_ℕ}
use obsidian_git_sync_mcp.Host.{Env, read_clock}
use obsidian_git_sync_mcp.Config.{Settings}
use obsidian_git_sync_mcp.History.{Command, commands}
use obsidian_git_sync_mcp.Worker.{State, handle_event}
use obsidian_git_sync_mcp.Push.{now, push_overdue, maybe_push}
use obsidian_git_sync_mcp.Push.Attempts.{Onward, IsDue, first_fetch, maybe_push-attempts}
use obsidian_git_sync_mcp.Loop.{Poll, arrived, quiet, broke, iteration}
use obsidian_git_sync_mcp.Loop.Safety.{handle_event-Returns}

module _ (env : Env) (c : Settings) where
  -- The worker behind its work on an event, or at the end of a quiet window, and its reading of the
  -- clock behind that work.
  abbrev pub behind : Poll → State → State
  behind (arrived e) s =
      let u = final (handle_event env c e s) in record u { trace = read_clock ∷ u.trace }
  behind quiet s = s
  behind (broke x) s = s

  -- A window was quiet, or the longest interval has passed since the last push.
  abbrev pub IsTime : Poll → State → Type 0
  IsTime (arrived e) s =
      let u = final (handle_event env c e s) in
      ge_float (sub_ℕ (env.monotonic u.trace) u.worker.last_push) u.worker.push_max_interval ≡ true
  IsTime quiet s = Unit
  IsTime (broke x) s = ⊥

  pushes :
      (u : State)
      → IsDue u.worker
      → ge_float (sub_ℕ (env.monotonic u.trace) u.worker.last_push) u.worker.push_max_interval
        ≡ true
      → let v = record u { trace = read_clock ∷ u.trace } in
        Onward
          (first_fetch env v ∷ commands v.trace)
          (final ((do overdue ← push_overdue env; if overdue then maybe_push env else pure tt) u))
  unfolding push_overdue now commands
  pushes u due late =
      rw late (maybe_push-attempts env (record u { trace = read_clock ∷ u.trace }) due)

  -- At the end of a quiet window, and however busy the queue is behind the work on each event at
  -- whose end the longest interval has passed since the last push: if a commit is to be pushed, and
  -- a remote and a branch are configured, the next command fetches from the remote, whatever git
  -- answered before.
  pub iteration-attempts :
      (p : Poll) (s : State)
      → IsTime p s
      → IsDue (behind p s).worker
      → (new : List Command) × (commands (final (iteration env c p s)).trace
          ≡ new ++ first_fetch env (behind p s) ∷ commands (behind p s).trace)
  unfolding iteration
  iteration-attempts (arrived e) s late due =
      let u = final (handle_event env c e s) in
      let v = record u { trace = read_clock ∷ u.trace } in
      subst (Onward (first_fetch env v ∷ commands v.trace))
        (sym (
          final-seq (handle_event env c e)
            (do overdue ← push_overdue env; if overdue then maybe_push env else pure tt) s
            (handle_event-Returns env c e s)))
        (pushes u due late)
  iteration-attempts quiet s window due = maybe_push-attempts env s due
  iteration-attempts (broke x) s never due = absurd never
