-- ===== src/Push/Laws.antt =====
-- src/obsidian_git_sync/git_ops.py: what a run of `git push` leaves to push.
use obsidian_git_sync_mcp.Common.{
  ◌≡◌, sym, ◌∙◌, true, false, List, ◌∷◌, Run, returned, raised, timeout_expired,
}
use obsidian_git_sync_mcp.Text.{Text}
use obsidian_git_sync_mcp.Host.{
  Env, Trace, Reply, exited, timed_out, failed, GitResult, is_ok, ran, logged, git_timed_out,
}
use obsidian_git_sync_mcp.GitOps.{GitOps, push, run}
use obsidian_git_sync_mcp.History.{Command, commands, pushing, has_pending, verb, ending, succeeded}
use obsidian_git_sync_mcp.History.Verbs.{verb-push, pushing_ne}
use obsidian_git_sync_mcp.History.Laws.{has_pending-cons, has_pending-pushed}

ending-ok : (r : GitResult) → is_ok r ≡ true → ending (exited r) ≡ succeeded
unfolding ending
ending-ok r h = rw h

-- A push that returns with success leaves nothing; any other leaves what was there.
abbrev pub PushOutcome : List Command → Run Trace GitResult → Type 0
PushOutcome cs (returned r t) =
    (is_ok r ≡ true → has_pending (commands t) ≡ false)
    × (has_pending (commands t) ≡ true → has_pending cs ≡ true)
PushOutcome cs (raised e t) = has_pending (commands t) ≡ true → has_pending cs ≡ true

push_reply :
    (line : List Text) (t : Trace) (reply : Reply)
    → verb line ≡ pushing
    → PushOutcome (commands t) (elim reply [
      | exited r ↦ returned r (ran line (exited r) ∷ t)
      | timed_out ↦ raised timeout_expired (logged git_timed_out ∷ ran line timed_out ∷ t)
      | failed e ↦ raised e (ran line (failed e) ∷ t)
    ])
unfolding commands
push_reply line t (exited r) v = (
  λ good. has_pending-pushed (record { line = line; reply = exited r }) _ v (ending-ok r good),
  has_pending-cons _ (commands t) (λ e. pushing_ne (sym v ∙ e)),
)
push_reply line t timed_out v = has_pending-cons _ (commands t) (λ e. pushing_ne (sym v ∙ e))
push_reply line t (failed x) v = has_pending-cons _ (commands t) (λ e. pushing_ne (sym v ∙ e))

pub push-PushOutcome :
    (env : Env) (g : GitOps) (remote branch : Text) (t : Trace)
    → PushOutcome (commands t) (push env g remote branch t)
unfolding push run
push-PushOutcome env g remote branch t = push_reply _ t (env.git t _) (verb-push g remote branch)
