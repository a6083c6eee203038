-- ===== src/History/Laws.antt =====
-- What one command adds to the history, and what that says of pending commits.
use obsidian_git_sync_mcp.Common.{
  ◌≡◌, ◌≢◌, refl, Bool, true, false, List, [], ◌∷◌, arith, final, ◌++◌, Run, returned, raised,
  timeout_expired, pure, not, sym, ◌∙◌,
}
use obsidian_git_sync_mcp.Common.Rules.{bind}
use obsidian_git_sync_mcp.Text.{Text, codes}
use obsidian_git_sync_mcp.Numeral.{pos}
use obsidian_git_sync_mcp.Host.{
  Env, Io, Trace, Reply, exited, timed_out, failed, GitResult, is_ok, ran, logged, git_timed_out,
}
use obsidian_git_sync_mcp.GitOps.{GitOps, argv, run, commit, has_staged, identity_args}
use obsidian_git_sync_mcp.History.Verbs.{verb-commit, verb-diff, inspecting_ne}
use obsidian_git_sync_mcp.History.{
  Command, commands, Verb, committing, pushing, other, verb, Ending, succeeded, exited_with, lost,
  ending, pending_after, has_pending,
}

-- `run` adds its command and what git answered, and nothing else.
pub commands-run :
    (env : Env) (g : GitOps) (args : List Text) (t : Trace)
    → commands (final (run env g args t))
      ≡ record { line = argv g args; reply = env.git t (argv g args) } ∷ commands t
unfolding commands run
commands-run env g args t = ground arith

pending_after_other :
    (v : Verb) (e : Ending) (b : Bool) → v ≢ committing → pending_after v e b ≡ true → b ≡ true
unfolding pending_after
pending_after_other committing e b h p = absurd (h refl)
pending_after_other pushing succeeded b h p = cc
pending_after_other pushing (exited_with c) b h p = p
pending_after_other pushing lost b h p = p
pending_after_other _ e b h p = p

pub has_pending-cons :
    (c : Command) (cs : List Command)
    → verb c.line ≢ committing
    → has_pending (c ∷ cs) ≡ true
    → has_pending cs ≡ true
unfolding has_pending
has_pending-cons c cs h p = pending_after_other (verb c.line) (ending c.reply) (has_pending cs) h p

pending_after_success : (v : Verb) (b : Bool) → v ≡ pushing → pending_after v succeeded b ≡ false
unfolding pending_after
pending_after_success v b h = rw h

pub has_pending-pushed :
    (c : Command) (cs : List Command)
    → verb c.line ≡ pushing
    → ending c.reply ≡ succeeded
    → has_pending (c ∷ cs) ≡ false
unfolding has_pending
has_pending-pushed c cs v e = rw (e) (pending_after_success (verb c.line) (has_pending cs) v)

-- A commit that failed leaves nothing new to push.
pending_after_failure :
    (v : Verb) (e : Ending) (b : Bool) → v ≡ committing → e ≢ succeeded → pending_after v e b ≡ b
unfolding pending_after
pending_after_failure v succeeded b h k = absurd (k refl)
pending_after_failure v (exited_with c) b h k = rw h
pending_after_failure v lost b h k = rw h

pub has_pending-failed :
    (c : Command) (cs : List Command)
    → verb c.line ≡ committing
    → ending c.reply ≢ succeeded
    → has_pending (c ∷ cs) ≡ has_pending cs
unfolding has_pending
has_pending-failed c cs v e = pending_after_failure (verb c.line) (ending c.reply) _ v e

pending_after_idle : (v : Verb) (e : Ending) (b : Bool) → v ≡ other → pending_after v e b ≡ b
unfolding pending_after
pending_after_idle v e b h = rw h

pub has_pending-other :
    (c : Command) (cs : List Command) → verb c.line ≡ other → has_pending (c ∷ cs) ≡ has_pending cs
unfolding has_pending
has_pending-other c cs h = pending_after_idle (verb c.line) (ending c.reply) (has_pending cs) h

ending-failed : (r : GitResult) → is_ok r ≡ false → ending (exited r) ≢ succeeded
unfolding ending
ending-failed r h e = cc

-- What a run of `git commit` leaves to push: nothing new, unless it returns with success.
abbrev pub CommitOutcome : List Command → Run Trace GitResult → Type 0
CommitOutcome cs (returned r t) =
    is_ok r ≡ false → has_pending (commands t) ≡ true → has_pending cs ≡ true
CommitOutcome cs (raised e t) = has_pending (commands t) ≡ true → has_pending cs ≡ true

module _ (env : Env) (g : GitOps) where
  commit_reply :
      (line : List Text) (t : Trace) (reply : Reply)
      → verb line ≡ committing
      → CommitOutcome (commands t) (elim reply [
        | exited r ↦ returned r (ran line (exited r) ∷ t)
        | timed_out ↦ raised timeout_expired (logged git_timed_out ∷ ran line timed_out ∷ t)
        | failed e ↦ raised e (ran line (failed e) ∷ t)
      ])
  unfolding commands
  commit_reply line t (exited r) v = λ bad p.
      rw (has_pending-failed (record { line = line; reply = exited r }) _ v (ending-failed r bad))
        at p
  commit_reply line t timed_out v = λ p.
      rw
        (has_pending-failed (record { line = line; reply = timed_out }) _ v
          (unfold ending in (λ e. cc)))
        at p
  commit_reply line t (failed x) v = λ p.
      rw
        (has_pending-failed (record { line = line; reply = failed x }) _ v
          (unfold ending in (λ e. cc)))
        at p

  commit_run :
      (message : Text) (t : Trace)
      → CommitOutcome
          (commands t)
          (run env g (identity_args g ++ (codes "commit" ∷ codes "-m" ∷ message ∷ [])) t)
  unfolding run
  commit_run message t = commit_reply _ t (env.git t _) (verb-commit g message)

  weaken :
      (cs ds : List Command) (o : Run Trace GitResult)
      → (has_pending ds ≡ true → has_pending cs ≡ true)
      → CommitOutcome ds o
      → CommitOutcome cs o
  weaken cs ds (returned r u) k c = λ bad p. k (c bad p)
  weaken cs ds (raised e u) k c = λ p. k (c p)

  commit_staged :
      (message : Text) (cs : List Command) (r : Run Trace Bool)
      → (has_pending (commands (final r)) ≡ true → has_pending cs ≡ true)
      → CommitOutcome cs (elim r [
        | returned staged t' ↦
            (elim staged as (λ b. Io GitResult) [
              | true ↦ run env g (identity_args g ++ (codes "commit" ∷ codes "-m" ∷ message ∷ []))
              | false ↦ pure (record { rc = pos 0; stdout = []; stderr = codes "nothing staged" })
            ])
              t'
        | raised e t' ↦ raised e t'
      ])
  commit_staged message cs (returned true t) k = weaken cs (commands t) _ k (commit_run message t)
  commit_staged message cs (returned false t) k = λ bad. k
  commit_staged message cs (raised e t) k = k

  pub has_staged_pending :
      (t : Trace)
      → has_pending (commands (final (has_staged env g t))) ≡ true
      → has_pending (commands t) ≡ true
  unfolding has_staged
  has_staged_pending t =
      bind (λ u. has_pending (commands u) ≡ true → has_pending (commands t) ≡ true)
        (run env g (codes "diff" ∷ codes "--cached" ∷ codes "--quiet" ∷ []))
        (λ r. pure (not (is_ok r)))
        (λ u k p. k (
          has_pending-cons _ (commands u) (λ v. inspecting_ne (sym (verb-diff g) ∙ v))
            (rw commands-run at p)))
        (λ r u k. k) t (λ p. p)

  pub commit-CommitOutcome :
      (message : Text) (t : Trace) → CommitOutcome (commands t) (commit env g message t)
  unfolding commit
  commit-CommitOutcome message t =
      commit_staged message (commands t) (has_staged env g t) (has_staged_pending t)
