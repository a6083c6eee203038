-- ===== src/Push/Settled.antt =====
-- src/obsidian_git_sync/worker.py: rebases and their aborts, command by command.
use obsidian_git_sync_mcp.Common.{
  ◌≡◌, ◌≢◌, refl, sym, ◌∙◌, true, false, List, ◌∷◌, timeout_expired, Run, returned, raised, final,
}
use obsidian_git_sync_mcp.Common.Rules.{Keeps}
use obsidian_git_sync_mcp.Text.{Text}
use obsidian_git_sync_mcp.Host.{
  Env, Trace, Reply, exited, timed_out, failed, is_ok, GitResult, ran, logged, git_timed_out,
}
use obsidian_git_sync_mcp.GitOps
use obsidian_git_sync_mcp.GitOps.{GitOps, argv}
use obsidian_git_sync_mcp.History.{
  Command, commands, Verb, rebasing, aborting, verb, Ending, ending, has_open_rebase, AbortsRebases,
  IsSettled, open_rebase_after,
}
use obsidian_git_sync_mcp.History.Verbs.{verb-rebase, verb-rebase_abort}
use obsidian_git_sync_mcp.History.Laws.{commands-run}
use obsidian_git_sync_mcp.History.Silent.{Has}
use obsidian_git_sync_mcp.Worker.{Worker, State, lift}

abbrev pub Settled : State → Type 0
Settled s = IsSettled (commands s.trace)

closed_of_verb :
    (c : Command) (cs : List Command) → verb c.line ≢ rebasing → has_open_rebase (c ∷ cs) ≡ false
unfolding has_open_rebase open_rebase_after
closed_of_verb c cs h = go (verb c.line) (ending c.reply) h
  where
    go : (v : Verb) (e : Ending) → v ≢ rebasing → open_rebase_after v e ≡ false
    go rebasing e h = absurd (h refl)
    go _ e h = refl

-- A command that is no rebase, after settled ones.
pub settle :
    (c : Command) (cs : List Command) → verb c.line ≢ rebasing → IsSettled cs → IsSettled (c ∷ cs)
settle c cs h (aborts, closed) =
    ((λ e. absurd (false_ne (sym closed ∙ e)), aborts), closed_of_verb c cs h)
  where
    false_ne : false ≢ true
    false_ne e = cc

pub lift_result :
    {A : Type 0} (w : Worker) (r : Run Trace A) (h : List Command)
    → Has h (final r)
    → IsSettled h
    → Settled (
        final {A = A} (elim r [
          | returned a t ↦ returned a (record { worker = w; trace = t })
          | raised e t ↦ raised e (record { worker = w; trace = t })
        ]))
lift_result w (returned a t) h e k = rw e k
lift_result w (raised x t) h e k = rw e k

pub Settled-run :
    (env : Env) (g : GitOps) (args : List Text)
    → verb (argv g args) ≢ rebasing
    → Keeps Settled (lift (GitOps.run env g args))
Settled-run env g args h s i =
    lift_result s.worker (GitOps.run env g args s.trace) _ (commands-run env g args s.trace)
      (settle _ (commands s.trace) h i)

aborting_ne : aborting ≢ rebasing
aborting_ne e = cc

-- The abort settles what came before it.
pub Settled-abort :
    (env : Env) (g : GitOps) (w : Worker) (t : Trace)
    → AbortsRebases (commands t)
    → Settled (final (lift (GitOps.rebase_abort env g) (record { worker = w; trace = t })))
unfolding GitOps.rebase_abort
Settled-abort env g w t h = lift_result w (GitOps.run env g _ t) _ (commands-run env g _ t) (
  (λ e. verb-rebase_abort g, h),
  closed_of_verb _ (commands t) (λ e. aborting_ne (sym (verb-rebase_abort g) ∙ e)),
)

abbrev pub RebaseOutcome : Run Trace GitResult → Type 0
RebaseOutcome (returned r t) =
    (is_ok r ≡ true → IsSettled (commands t)) × AbortsRebases (commands t)
RebaseOutcome (raised e t) = IsSettled (commands t)

module _ (line : List Text) (t : Trace) (i : IsSettled (commands t)) where
  adds : (c : Command) → AbortsRebases (c ∷ commands t)
  adds c = (λ e. absurd (clash e), i.0)
    where
      clash : has_open_rebase (commands t) ≡ true → ⊥
      clash e = cc (i.1, e)

  rebase_reply :
      (reply : Reply)
      → verb line ≡ rebasing
      → RebaseOutcome (elim reply [
        | exited r ↦ returned r (ran line (exited r) ∷ t)
        | timed_out ↦ raised timeout_expired (logged git_timed_out ∷ ran line timed_out ∷ t)
        | failed e ↦ raised e (ran line (failed e) ∷ t)
      ])
  unfolding commands has_open_rebase
  rebase_reply (exited r) v = (
    λ good. (adds (record { line = line; reply = exited r }), rw (v, good)),
    adds (record { line = line; reply = exited r }),
  )
  rebase_reply timed_out v = (adds (record { line = line; reply = timed_out }), rw v)
  rebase_reply (failed e) v = (adds (record { line = line; reply = failed e }), rw v)

pub rebase-RebaseOutcome :
    (env : Env) (g : GitOps) (remote branch : Text) (t : Trace)
    → IsSettled (commands t)
    → RebaseOutcome (GitOps.rebase_theirs env g remote branch t)
unfolding GitOps.rebase_theirs GitOps.run
rebase-RebaseOutcome env g remote branch t i = rebase_reply _ t i (env.git t _) (verb-rebase g _)
