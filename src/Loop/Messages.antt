-- ===== src/Loop/Messages.antt =====
-- src/obsidian_git_sync/worker.py: each event has its own commit, over the worker's whole life.
use obsidian_git_sync_mcp.Common.{
  ◌≡◌, ◌≢◌, refl, sym, subst, ap, ◌∙◌, true, Option, none, some, List, [], ◌∷◌, ◌++◌, append_assoc,
  map, if◌then◌else◌, Run, returned, raised, final, pure, ◌>>=◌,
}
use obsidian_git_sync_mcp.Common.Steps.{final-seq}
use obsidian_git_sync_mcp.Host.{Env}
use obsidian_git_sync_mcp.Text.{Text}
use obsidian_git_sync_mcp.Config.{Settings}
use obsidian_git_sync_mcp.Events.{SyncEvent}
use obsidian_git_sync_mcp.History.{
  Command, commands, Verb, staging, inspecting, committing, fetching, rebasing, aborting, pushing,
  other,
}
use obsidian_git_sync_mcp.History.Messages.{messages, messages-silent}
use obsidian_git_sync_mcp.Worker.{State, handle_event}
use obsidian_git_sync_mcp.Worker.Committed.{Commits}
use obsidian_git_sync_mcp.Worker.Messages.{told, due, handle_event-told}
use obsidian_git_sync_mcp.Push.{push_overdue, maybe_push}
use obsidian_git_sync_mcp.Push.Grammar.{IsCycle, Cycle, newest, may_follow}
use obsidian_git_sync_mcp.Push.Sequence.{maybe_push-Cycle}
use obsidian_git_sync_mcp.Loop.{Poll, arrived, quiet, broke, iteration, run, lifetime}
use obsidian_git_sync_mcp.Loop.Story.{overdue-Cycle}
use obsidian_git_sync_mcp.Loop.Safety.{iteration-Returns, handle_event-Returns}

-- The messages that are due for the events, the newest first, each at the state in which the loop
-- takes its event up; an exception of `get` is the end.
abbrev pub due_over : Env → Settings → State → List Poll → List Text
due_over env c s [] = []
due_over env c s (arrived e ∷ ps) =
    due_over env c (final (iteration env c (arrived e) s)) ps ++ due env s e
due_over env c s (quiet ∷ ps) = due_over env c (final (iteration env c quiet s)) ps
due_over env c s (broke x ∷ ps) = []

-- No command of a push cycle is a commit.
commit_follows : (o : Option Verb) → may_follow o committing ≢ true
commit_follows none e = cc
commit_follows (some staging) e = cc
commit_follows (some inspecting) e = cc
commit_follows (some committing) e = cc
commit_follows (some fetching) e = cc
commit_follows (some rebasing) e = cc
commit_follows (some aborting) e = cc
commit_follows (some pushing) e = cc
commit_follows (some other) e = cc

IsCycle-messages :
    (new old : List Command)
    → IsCycle new
    → messages (map (λ (c : Command). c.line) (new ++ old))
      ≡ messages (map (λ (c : Command). c.line) old)
IsCycle-messages [] old h = refl
IsCycle-messages (c ∷ new) old (f, h) =
    messages-silent c.line (map (λ (c : Command). c.line) (new ++ old))
      (λ e. commit_follows (newest new) (subst (λ v. may_follow (newest new) v ≡ true) e f))
    ∙ IsCycle-messages new old h

module _ (env : Env) (well : Commits env) (c : Settings) where
  Cycle-told : (s u : State) → Cycle s.trace u → told u ≡ told s
  Cycle-told s u (new, (f, k)) =
      ap (λ cs. messages (map (λ (c : Command). c.line) cs)) f
      ∙ IsCycle-messages new (commands s.trace) k.0

  maybe_push-told : (s : State) → told (final (maybe_push env s)) ≡ told s
  maybe_push-told s = Cycle-told s (final (maybe_push env s)) (maybe_push-Cycle env s)

  event-told :
      (e : SyncEvent) (s : State)
      → told (final (iteration env c (arrived e) s)) ≡ due env s e ++ told s
  unfolding iteration
  event-told e s =
      ap told (
        final-seq (handle_event env c e)
          (do overdue ← push_overdue env; if overdue then maybe_push env else pure tt) s
          (handle_event-Returns env c e s))
      ∙ (Cycle-told u v (overdue-Cycle env c u) ∙ handle_event-told env well c e s)
    where
      u : State
      u = final (handle_event env c e s)

      v : State
      v = final ((do overdue ← push_overdue env; if overdue then maybe_push env else pure tt) u)

  run-told :
      (ps : List Poll) (s : State) → told (final (run env c ps s)) ≡ due_over env c s ps ++ told s
  unfolding run iteration
  run-told [] s = refl
  run-told (arrived e ∷ ps) s =
      let u = final (iteration env c (arrived e) s) in
      ap told (
        final-seq (iteration env c (arrived e)) (run env c ps) s
          (iteration-Returns env c (arrived e) s tt))
      ∙ (run-told ps u
          ∙ (ap (λ m. due_over env c u ps ++ m) (event-told e s)
              ∙ sym (append_assoc (due_over env c u ps) (due env s e) (told s))))
  run-told (quiet ∷ ps) s =
      let u = final (maybe_push env s) in
      ap told
        (final-seq (iteration env c quiet) (run env c ps) s (iteration-Returns env c quiet s tt))
      ∙ (run-told ps u ∙ ap (λ m. due_over env c u ps ++ m) (maybe_push-told s))
  run-told (broke x ∷ ps) s = refl

  -- Where git stages, finds changes at each comparison and commits, whatever else git, the disk,
  -- the clock and the queue do: the messages of the commits that the worker's life adds are, in the
  -- order of the events, one for each write that names paths (its operation and paths) and one for
  -- each sweep (the clock's time at the state in which the loop takes it up), and none for any
  -- other event, a quiet window, a push cycle or the final flush. So no event is lost, committed
  -- twice or overtaken, until an exception of `get` ends the loop.
  pub lifetime-told :
      (ps : List Poll) (s : State)
      → told (final (lifetime env c ps s)) ≡ due_over env c s ps ++ told s
  unfolding lifetime
  lifetime-told ps s = flushed (run env c ps s) ∙ run-told ps s
    where
      flushed :
          (r : Run State (Unit {0}))
          → told (
              final {S = State} {A = Unit {0}}
                (elim (elim r as (λ x. Run State (Unit {0})) [
                  | returned a t ↦ returned a t
                  | raised x t ↦ returned tt t
                ]) [ returned a t ↦ maybe_push env t | raised x t ↦ raised x t ]))
            ≡ told (final r)
      flushed (returned a t) = maybe_push-told t
      flushed (raised x t) = maybe_push-told t
